-- ===== src/Http/Request/Selects.antt =====
-- Which paths select a function: onParse on the method and the path elements of a request.
use poolfrontend.Prelude.{
  ℕ, ◌==◌, ◌≡◌, refl, sym, ap, ◌∙◌, true, false, Bool, Option, none, some, List, [], ◌∷◌, String,
  str_eq, eq_iff, arith, Bool-cases, Option-cases, inl, inr, subst, ◌↔◌, map,
}
use poolfrontend.Json.{Json}
use poolfrontend.Http.Services.{Services}
use poolfrontend.Http.Lookup.{Server}
use poolfrontend.Http.Dispatch.{
  Function, unknown, api, Component, method, uri_path_element, Context, Parsed, on_parse,
  select_function, find_function, function_name_map,
}
use poolfrontend.Http.Request.{feed}
use poolfrontend.Http.Request.Routing.{
  IsHandled, find_function-IsHandled, table-AllHandled, feed-select,
}

no_yes : {b : Bool} → b ≡ false → b ≡ true → ⊥
no_yes e f = ground arith

module _ (j : Json) (s : Services j) (server : Server j s) (post : ℕ)
    (parse : List ℕ → Option j.Value) where
  -- The request line of a method and a path.
  abbrev pub request_line : ℕ → List String → List Component
  request_line m names = method m ∷ map uri_path_element names

  -- The parse goes on, and `f` is to handle the request.
  abbrev pub Selects : Function → Parsed j s → Type 0
  Selects f r = (r.continues ≡ true) × (r.context.function ≡ f)

  longer :
      (g : Function) (context : Context) (name : String) (names : List String) (f : Function)
      → IsHandled g
      → ¬ Selects f (
          feed j s server post parse
            (record context { function = g })
            (uri_path_element name ∷ map uri_path_element names))
  unfolding feed on_parse
  longer unknown context name names f h = absurd h
  longer api context name names f h = absurd h
  longer _ context name names f h = λ (go, is). ground arith

  -- What is left of the path once the function of an element is selected.
  at_end :
      (g : Function) (context : Context) (names : List String) (f : Function)
      → IsHandled g
      → Selects f (
          feed j s server post parse (record context { function = g }) (map uri_path_element names))
      → (names ≡ []) × (g ≡ f)
  unfolding feed
  at_end g context [] f h (go, is) = (refl, is)
  at_end g context (name ∷ names) f h selects = absurd (longer g context name names f h selects)

  at_name : ℕ → Context → String → List String → Parsed j s
  at_name m context name names =
      feed j s server post parse (record context { method = m; function = api })
        (uri_path_element name ∷ map uri_path_element names)

  missing :
      (m : ℕ) (context : Context) (name : String) (names : List String)
      → find_function function_name_map name ≡ none
      → (at_name m context name names).continues ≡ false
  unfolding at_name feed on_parse select_function
  missing m context name names e = rw e refl

  other_method :
      (m : ℕ) (context : Context) (name : String) (names : List String) (g : Function)
      → find_function function_name_map name ≡ some g
      → (post == m) ≡ false
      → (at_name m context name names).continues ≡ false
  unfolding at_name feed on_parse select_function
  other_method m context name names g e d = rw (e, d) refl

  found :
      (m : ℕ) (context : Context) (name : String) (names : List String) (g : Function)
      → find_function function_name_map name ≡ some g
      → (post == m) ≡ true
      → at_name m context name names
        ≡ feed j s server post parse
            (record context { method = m; function = g })
            (map uri_path_element names)
  unfolding at_name feed on_parse select_function
  found m context name names g e d = rw (e, d) refl

  abbrev pub IsSelected : ℕ → List String → Function → Type 0
  IsSelected m names f =
      (m ≡ post)
      × (name : String) × (names ≡ "api" ∷ name ∷ [])
      × (find_function function_name_map name ≡ some f)

  behind_api :
      (m : ℕ) (context : Context) (name : String) (names : List String) (f : Function)
      → Selects f (at_name m context name names)
      → (m ≡ post) × (names ≡ []) × (find_function function_name_map name ≡ some f)
  behind_api m context name names f (go, is) =
      elim (Option-cases (find_function function_name_map name)) [
        | inl none_found ↦ absurd (no_yes (missing m context name names none_found) go)
        | inr (g, e) ↦ elim (Bool-cases (post == m)) [
          | inr differs ↦ absurd (no_yes (other_method m context name names g e differs) go)
          | inl same ↦
              let (ended, this) =
                at_end g (record context { method = m }) names f
                  (find_function-IsHandled function_name_map name g table-AllHandled e)
                  (subst (Selects f) (found m context name names g e same) (go, is)) in
              let posted : m ≡ post = ground arith in (posted, ended, e ∙ ap some this)
        ]
      ]

  not_api :
      (context : Context) (m : ℕ) (a : String) (names : List String)
      → str_eq a "api" ≡ false
      → (feed j s server post parse context (request_line m (a ∷ names))).continues ≡ false
  unfolding feed on_parse
  not_api context m a names e = rw e refl

  behind_method :
      (context : Context) (m : ℕ) (names : List String) (f : Function)
      → IsHandled f
      → Selects f (feed j s server post parse context (request_line m ("api" ∷ names)))
      → IsSelected m ("api" ∷ names) f
  unfolding at_name feed on_parse
  behind_method context m [] f h (go, is) = absurd (subst IsHandled (sym is) h)
  behind_method context m (name ∷ names) f h selects =
      let (posted, ended, e) = behind_api m context name names f selects in
      (posted, name, ap (λ x. "api" ∷ name ∷ x) ended, e)

  forward :
      (context : Context) (m : ℕ) (names : List String) (f : Function)
      → IsHandled f
      → Selects f (feed j s server post parse context (request_line m names))
      → IsSelected m names f
  unfolding feed on_parse
  forward context m [] f h (go, is) = absurd (subst IsHandled (sym is) h)
  forward context m (a ∷ names) f h selects = elim (Bool-cases (str_eq a "api")) [
    | inr differs ↦ absurd (no_yes (not_api context m a names differs) selects.0)
    | inl same ↦
        let e = (eq_iff a "api").0 same in
        subst (λ x. IsSelected m (x ∷ names) f) (sym e)
          (behind_method context m names f h (
            subst (λ x. Selects f (feed j s server post parse context (request_line m (x ∷ names))))
              e selects))
  ]

  -- Of all methods and paths, just a POST of `/api/<name>` with the name of a function in the table
  -- selects that function, in whatever state the connection was: a path that is shorter, longer or
  -- begins with another element selects none, or ends the parse.
  pub feed-Selects_iff :
      (context : Context) (m : ℕ) (names : List String) (f : Function)
      → IsHandled f
      → Selects f (feed j s server post parse context (request_line m names)) ↔ IsSelected m names f
  feed-Selects_iff context m names f h =
      (forward context m names f h, λ (posted, name, path, e). backward name posted path e)
    where
      backward :
          (name : String)
          → m ≡ post
          → names ≡ "api" ∷ name ∷ []
          → find_function function_name_map name ≡ some f
          → Selects f (feed j s server post parse context (request_line m names))
      backward name posted path e =
          rw (posted, path, feed-select j s server post parse context name f e) (refl, refl)
