-- ===== src/Http/Out.antt =====
-- The body of a reply: the tree that the nested JSON::Object and JSON::Array serializers of
-- http.cpp write, one constructor for each kind of call (addString, addInt, addDouble, addBoolean,
-- addNull, addField with a nested serializer). Its text is the serializer's affair.
-- `undefined` is an entry whose content C++ leaves undefined, since it is read behind the end of a
-- vector.
use poolfrontend.Prelude.{Bool, List, [], ◌∷◌, String}
use poolfrontend.Prelude.Int.{ℤ}

mutual
  pub data Out (D : Type 0) : Type 0 where
    str : String → Out D
    int : ℤ → Out D
    double : D → Out D
    boolean : Bool → Out D
    null : Out D
    undefined : Out D
    object : Members D → Out D
    array : Elements D → Out D

  pub data Members (D : Type 0) : Type 0 where
    close : Members D
    member : String → Out D → Members D → Members D

  pub data Elements (D : Type 0) : Type 0 where
    last : Elements D
    element : Out D → Elements D → Elements D

module _ {D : Type 0} where
  abbrev to_elements : List (Out D) → Elements D
  to_elements [] = last
  to_elements (x ∷ xs) = element x (to_elements xs)

  abbrev to_members : List (String × Out D) → Members D
  to_members [] = close
  to_members ((k, v) ∷ rest) = member k v (to_members rest)

  -- A JSON::Array with its elements, and a JSON::Object with its fields in the order written.
  abbrev pub arr : List (Out D) → Out D
  arr xs = array (to_elements xs)

  abbrev pub obj : List (String × Out D) → Out D
  obj fields = object (to_members fields)
