-- ===== src/Json/Sample.antt =====
-- A concrete document type for the tests: objects as association lists. A number is an integer,
-- and stands for its own double.
use poolfrontend.Prelude.{
  ℕ, ◌^◌, ltb, Bool, true, false, ◌&&◌, ◌||◌, List, [], ◌∷◌, String, str_eq, if◌then◌else◌,
}
use poolfrontend.Prelude.Int.{ℤ, pos, negsuc}
use poolfrontend.Json.{Json}

mutual
  pub data Doc : Type 0 where
    null : Doc
    boolean : Bool → Doc
    num : ℤ → Doc
    text : String → Doc
    arr : Docs → Doc
    obj : Fields → Doc

  pub data Docs : Type 0 where
    nil : Docs
    cons : Doc → Docs → Docs

  pub data Fields : Type 0 where
    end : Fields
    field : String → Doc → Fields → Fields

abbrev has : Fields → String → Bool
has end k = false
has (field j v fs) k = str_eq j k || has fs k

abbrev at : Fields → String → Doc
at end k = null
at (field j v fs) k = if str_eq j k then v else at fs k

abbrev items : Docs → List Doc
items nil = []
items (cons d ds) = d ∷ items ds

abbrev sample_has_member : Doc → String → Bool
sample_has_member (obj fs) k = has fs k
sample_has_member _ k = false

abbrev sample_member : Doc → String → Doc
sample_member (obj fs) k = at fs k
sample_member _ k = null

abbrev sample_is_object : Doc → Bool
sample_is_object (obj fs) = true
sample_is_object _ = false

abbrev sample_is_array : Doc → Bool
sample_is_array (arr ds) = true
sample_is_array _ = false

abbrev sample_is_string : Doc → Bool
sample_is_string (text s) = true
sample_is_string _ = false

abbrev sample_is_bool : Doc → Bool
sample_is_bool (boolean b) = true
sample_is_bool _ = false

abbrev fits_int64 : ℤ → Bool
fits_int64 (pos n) = ltb n (2 ^ 63)
fits_int64 (negsuc n) = ltb n (2 ^ 63)

abbrev fits_unsigned : ℕ → ℤ → Bool
fits_unsigned limit (pos n) = ltb n limit
fits_unsigned limit (negsuc n) = false

abbrev as_int : Doc → ℤ
as_int (num z) = z
as_int _ = pos 0

abbrev as_nat : Doc → ℕ
as_nat (num (pos n)) = n
as_nat _ = 0

abbrev sample_is_number : Doc → Bool
sample_is_number (num z) = true
sample_is_number _ = false

abbrev sample_get_string : Doc → String
sample_get_string (text s) = s
sample_get_string _ = ""

abbrev sample_get_bool : Doc → Bool
sample_get_bool (boolean b) = b
sample_get_bool _ = false

abbrev sample_get_array : Doc → List Doc
sample_get_array (arr ds) = items ds
sample_get_array _ = []

abbrev pub sample_json : Json
sample_json = record {
  Value = Doc;
  Double = ℤ;
  has_member = sample_has_member;
  member = sample_member;
  is_object = sample_is_object;
  is_array = sample_is_array;
  is_string = sample_is_string;
  is_bool = sample_is_bool;
  is_int64 = λ d. sample_is_number d && fits_int64 (as_int d);
  is_uint64 = λ d. sample_is_number d && fits_unsigned (2 ^ 64) (as_int d);
  is_uint = λ d. sample_is_number d && fits_unsigned (2 ^ 32) (as_int d);
  is_number = sample_is_number;
  is_float = sample_is_number;
  is_double = sample_is_number;
  get_array = sample_get_array;
  get_string = sample_get_string;
  get_bool = sample_get_bool;
  get_int64 = as_int;
  get_uint64 = as_nat;
  get_uint = as_nat;
  get_double = as_int;
  zero_double = pos 0;
  is_nan = λ d. false;
  is_inf = λ d. false;
  double_of = λ n. pos n;
}
