-- ===== src/Config/Lookup.antt =====
-- Set and look-up in the table of variables.
use linux_sna.Base.{
  Option, none, some, List, [], ◌∷◌, ◌++◌, ◌≡◌, refl, arith, if◌then◌else◌, Bytes, equal, equal_iff,
}
use linux_sna.Config.{
  Value, text, config_string, config_list, Var, Config, get_str, get_value, get, replace, set_found,
  with_vars, set,
}

pub get_str-append :
    (vars : List Var) (v : Var) (name : Bytes)
    → get_str vars v.name ≡ none
    → get_str (vars ++ v ∷ []) name ≡ (if equal v.name name then some v else get_str vars name)
unfolding get_str
get_str-append [] v name h = refl
get_str-append (x ∷ vars) v name h = ground (
  arith,
  equal_iff x.name name,
  equal_iff v.name name,
  equal_iff x.name v.name,
  get_str-append vars v name,
)

pub get_str-replace :
    (vars : List Var) (n name : Bytes) (w : Value) (old : Var)
    → get_str vars n ≡ some old
    → get_value (get_str (replace n w vars) name)
      ≡ (if equal n name then some w else get_value (get_str vars name))
unfolding get_str replace
get_str-replace [] n name w old h = cc
get_str-replace (x ∷ vars) n name w old h = ground (
  arith,
  equal_iff x.name name,
  equal_iff n name,
  equal_iff x.name n,
  get_str-replace vars n name w old,
)

pub get_str-append_found :
    (vars : List Var) (v : Var) (name : Bytes) (old : Var)
    → get_str vars name ≡ some old
    → get_str (vars ++ v ∷ []) name ≡ some old
unfolding get_str
get_str-append_found [] v name old h = cc
get_str-append_found (x ∷ vars) v name old h = ground (arith, get_str-append_found vars v name old)

-- The first variable with the name, if there is one, is no list.
abbrev pub IsNoList : Option Var → Type 0
IsNoList none = Unit
IsNoList (some v) = v.kind ≡ config_string

module _ (c : Config) (name v : Bytes) where
  abbrev Sets : Option Config → Type 0
  Sets none = ⊥
  Sets (some d) =
      (other : Bytes) → get d other ≡ (if equal name other then some (text v) else get c other)

  set_found-Sets :
      (o : Option Var)
      → get_str c.vars name ≡ o
      → IsNoList o
      → Sets (with_vars c (set_found c.vars o name config_string (text v)))
  unfolding set_found get
  set_found-Sets none e h = λ other.
      rw
        (get_str-append c.vars (record { name = name; kind = config_string; value = text v }) other
          e)
        (ground arith)
  set_found-Sets (some old) e h = rw h (λ other. get_str-replace c.vars name other (text v) old e)

  -- Setting a string overwrites the first string of that name or adds one, so that look-up of the
  -- name gives the new text and look-up of any other name what it gave before. It never fails,
  -- unless the name belongs to a list.
  pub set-get :
      IsNoList (get_str c.vars name)
      → (d : Config) × (set c name config_string (text v) ≡ some d)
        × ((other : Bytes)
            → get d other ≡ (if equal name other then some (text v) else get c other))
  unfolding set
  set-get h =
      found (set c name config_string (text v)) refl (set_found-Sets (get_str c.vars name) refl h)
    where
      found :
          (o : Option Config)
          → set c name config_string (text v) ≡ o
          → Sets o
          → (d : Config) × (set c name config_string (text v) ≡ some d)
            × ((other : Bytes)
                → get d other ≡ (if equal name other then some (text v) else get c other))
      found none e h = absurd h
      found (some d) e h = (d, e, h)

  -- Where the first variable of the name is a list, setting a string succeeds and look-up of the
  -- name still gives the list.
  pub set-get_list :
      {old : Var}
      → get_str c.vars name ≡ some old
      → old.kind ≡ config_list
      → (d : Config) × (set c name config_string (text v) ≡ some d) × (get d name ≡ get c name)
  unfolding set get
  set-get_list {old} e k =
      let added : Var = record { name = name; kind = config_string; value = text v } in
      (
        record c { vars = c.vars ++ added ∷ [] },
        rw (e, k),
        rw (get_str-append_found c.vars added name old e, e),
      )
