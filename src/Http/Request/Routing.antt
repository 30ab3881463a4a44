-- ===== src/Http/Request/Routing.antt =====
-- The path of a request selects its handler: the table of API functions, and what onParse does with
-- the method, the path elements and the pieces of the body.
use mathlib.Core.List.{append_assoc}
use poolfrontend.Prelude.{
  ℕ, ◌≡◌, ◌≢◌, ◌⊎◌, refl, ◌∙◌, true, false, Option, none, some, List, [], ◌∷◌, ◌++◌, String, str_eq,
  arith, Bool-cases, ==_refl, inl, inr, subst,
}
use poolfrontend.Json.{Json}
use poolfrontend.Http.Services.{Services}
use poolfrontend.Http.Handler.{write, not_found}
use poolfrontend.Http.Lookup.{Server}
use poolfrontend.Http.Dispatch.{
  Function, unknown, api, Component, method, uri_path_element, body, body_last, Context, Parsed,
  on_parse, find_function, function_name_map,
}
use poolfrontend.Http.Request.{feed}

-- The one other form of a function in the table is excluded: its default label.
abbrev pub IsHandled : Function → Type 0
IsHandled unknown = ⊥
IsHandled api = ⊥
IsHandled _ = Unit

abbrev AllHandled : List (String × Function) → Type 0
AllHandled [] = Unit
AllHandled ((key, f) ∷ rest) = IsHandled f × AllHandled rest

pub same_function : {f g : Function} → some f ≡ some g → f ≡ g
same_function e = cc

pub find_function-IsHandled :
    (table : List (String × Function)) (name : String) (f : Function)
    → AllHandled table
    → find_function table name ≡ some f
    → IsHandled f
find_function-IsHandled [] name f h e = cc
find_function-IsHandled ((key, g) ∷ rest) name f h e = elim (Bool-cases (str_eq key name)) [
  | inl here ↦ subst IsHandled (same_function (rw here at e)) h.0
  | inr there ↦ find_function-IsHandled rest name f h.1 (rw there at e)
]

pub table-AllHandled : AllHandled function_name_map
unfolding function_name_map
table-AllHandled = omega arith

module _ (j : Json) (s : Services j) (server : Server j s) (post : ℕ)
    (parse : List ℕ → Option j.Value) where
  abbrev pub selected : Context → Function → Parsed j s
  selected context f = record {
    context = record context { method = post; function = f };
    trace = [];
    continues = true;
  }

  abbrev pub Refused : Parsed j s → Type 0
  Refused r = (r.trace ≡ write not_found ∷ []) × (r.continues ≡ false)

  abbrev pub address : ℕ → String → List Component
  address m name = method m ∷ uri_path_element "api" ∷ uri_path_element name ∷ []

  -- A POST of `/api/<name>` with a name of the table selects the table's function, writes nothing and
  -- goes on; what had arrived of the body is left.
  pub feed-select :
      (context : Context) (name : String) (f : Function)
      → find_function function_name_map name ≡ some f
      → feed j s server post parse context (address post name) ≡ selected context f
  unfolding feed on_parse
  feed-select context name f e = rw (e, ==_refl post)

  -- A name that is not in the table, or a method other than POST, is answered by the 404 page alone, and
  -- the parse is cancelled.
  pub feed-unknown :
      (context : Context) (m : ℕ) (name : String)
      → (find_function function_name_map name ≡ none) ⊎ (m ≢ post)
      → Refused (feed j s server post parse context (address m name))
  unfolding feed on_parse
  feed-unknown context m name (inl e) = rw e (refl, refl)
  feed-unknown context m name (inr differs) = ground arith

  abbrev pub joined : List (List ℕ) → List ℕ
  joined [] = []
  joined (c ∷ cs) = c ++ joined cs

  abbrev pub pieces : List (List ℕ) → List ℕ → List Component
  pieces [] bytes = body_last bytes ∷ []
  pieces (c ∷ cs) bytes = body c ∷ pieces cs bytes

  -- However the body is cut into pieces, the outcome is that of the whole body in one piece.
  pub feed-pieces :
      (context : Context) (chunks : List (List ℕ)) (bytes : List ℕ)
      → feed j s server post parse context (pieces chunks bytes)
        ≡ feed j s server post parse context (body_last (joined chunks ++ bytes) ∷ [])
  unfolding feed on_parse
  feed-pieces context [] bytes = refl
  feed-pieces context (c ∷ cs) bytes =
      feed-pieces (record context { request = context.request ++ c }) cs bytes
      ∙ rw (append_assoc context.request c (joined cs ++ bytes), append_assoc c (joined cs) bytes)
