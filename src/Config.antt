-- ===== src/Config.antt =====
-- libtnX/tnX_conf.c, the table of variables: look-up, set, unset, promote, the command line and
-- the reference count. `Load` models the reader of configuration files.
pub mod Load
pub mod Lookup
pub mod Promote
use linux_sna.Base.{
  ℕ, zero, suc, ◌+◌, ◌-◌, Bool, true, false, not, ◌&&◌, ◌||◌, Option, none, some, List, [], ◌∷◌,
  ◌++◌, leb, ◌==◌, if◌then◌else◌, ℤ, Bytes, codes, equal, length, get_elem?, drop,
}

-- What the `gpointer value` points at: a C string, or a list of them. A C string is its bytes
-- before the NUL.
pub data Value : Type 0 where
  text : Bytes → Value
  items : List Bytes → Value

-- CONFIG_STRING and CONFIG_LIST
pub data Kind : Type 0 where
  config_string config_list : Kind

-- `tnXconfig_str`
pub record Var : Type 0 where
  pub name : Bytes
  pub kind : Kind
  pub value : Value

-- `tnXconfig`
pub record Config : Type 0 where
  pub ref : ℕ
  pub vars : List Var

-- `tnX_config_new`
abbrev pub new : Config
new = record { ref = 1; vars = [] }

-- `tnX_config_ref`
abbrev pub add_ref : Config → Config
add_ref c = record c { ref = c.ref + 1 }

-- `tnX_config_unref`; `none` when the last reference goes and the table is freed
unfoldable pub unref : Config → Option Config
unref c = if c.ref == 1 then none else some (record c { ref = c.ref - 1 })

-- `tnX_config_str_new`; `none` is undefined behaviour, `strlen` of a list
unfoldable pub str_new : Bytes → Kind → Value → Option Var
str_new name config_string (text v) =
    some (record { name = name; kind = config_string; value = text v })
str_new name config_string (items xs) = none
str_new name config_list v = some (record { name = name; kind = config_list; value = v })

-- `tnX_config_get_str`: the first variable with the name
unfoldable pub get_str : List Var → Bytes → Option Var
get_str [] name = none
get_str (v ∷ vars) name = if equal v.name name then some v else get_str vars name

-- `tnX_config_get`
abbrev pub get_value : Option Var → Option Value
get_value none = none
get_value (some v) = some v.value

unfoldable pub get : Config → Bytes → Option Value
unfolding get_str
get c name = get_value (get_str c.vars name)

-- `tnX_config_get_bool`; the outer `none` is `strcmp` of a list
unfoldable pub truth : Option Value → Option Bool
truth none = some false
truth (some (text v)) = some (
    not (
      equal v (codes "off")
      || equal v (codes "no")
      || equal v (codes "0")
      || equal v (codes "false")))
truth (some (items xs)) = none

unfoldable pub get_bool : Config → Bytes → Option Bool
unfolding get truth
get_bool c name = truth (get c name)

-- `tnX_config_get_int`, where `atoi` is the C library's
unfoldable pub number : (Bytes → ℤ) → Option Value → Option ℤ
number atoi none = some (ℤ.pos 0)
number atoi (some (text v)) = some (atoi v)
number atoi (some (items xs)) = none

unfoldable pub get_int : (Bytes → ℤ) → Config → Bytes → Option ℤ
unfolding get number
get_int atoi c name = number atoi (get c name)

-- The assignment to `str->value`, where `str` is the first variable with the name.
unfoldable pub replace : Bytes → Value → List Var → List Var
replace name value [] = []
replace name value (v ∷ vars) =
    if equal v.name name then record v { value = value } ∷ vars else v ∷ replace name value vars

-- `g_slist_append` of a new variable
append_new : List Var → Option Var → Option (List Var)
append_new vars none = none
append_new vars (some v) = some (vars ++ v ∷ [])

-- `tnX_config_set` where a variable of the first kind is found: a string is overwritten in place,
-- and behind a list a second variable is appended.
set_old : Kind → List Var → Bytes → Kind → Value → Option (List Var)
unfolding append_new str_new
set_old config_string vars name kind (text v) = some (replace name (text v) vars)
set_old config_string vars name kind (items xs) = none
set_old config_list vars name kind value = append_new vars (str_new name kind value)

-- The part of `tnX_config_set` behind the look-up.
set_found : List Var → Option Var → Bytes → Kind → Value → Option (List Var)
unfolding set_old
set_found vars none name kind value = append_new vars (str_new name kind value)
set_found vars (some old) name kind value = set_old old.kind vars name kind value

unfoldable pub set_vars : List Var → Bytes → Kind → Value → Option (List Var)
unfolding set_found get_str replace
set_vars vars name kind value = set_found vars (get_str vars name) name kind value

abbrev with_vars : Config → Option (List Var) → Option Config
with_vars c none = none
with_vars c (some vars) = some (record c { vars = vars })

-- `tnX_config_set`
unfoldable pub set : Config → Bytes → Kind → Value → Option Config
unfolding set_vars
set c name kind value = with_vars c (set_vars c.vars name kind value)

-- `tnX_config_unset`
unfoldable pub remove_first : Bytes → List Var → List Var
remove_first name [] = []
remove_first name (v ∷ vars) = if equal v.name name then vars else v ∷ remove_first name vars

unfoldable pub unset : Config → Bytes → Config
unfolding remove_first
unset c name = record c { vars = remove_first name c.vars }

-- `!memcmp(data->name, prefix, strlen(prefix)) && data->name[strlen(prefix)] == '.'`
unfoldable pub is_prefixed : Bytes → Bytes → Bool
is_prefixed [] [] = false
is_prefixed [] (c ∷ name) = c == b'.'
is_prefixed (p ∷ prefix) [] = false
is_prefixed (p ∷ prefix) (c ∷ name) = c == p && is_prefixed prefix name

-- The test of `tnX_config_promote` on one name.
unfoldable pub promotes : Bytes → Bytes → Bool
unfolding is_prefixed
promotes prefix name = leb (length prefix) (length name + 2) && is_prefixed prefix name

-- The body of the loop at one variable.
unfoldable pub promote_one : Bytes → Var → Config → Option Config
unfolding promotes set
promote_one prefix v c =
    if promotes prefix v.name
    then set c (drop (length prefix + 1) v.name) v.kind v.value
    else some c

pub data Promoted : Type 0 where
  done : Config → Promoted
  fault : Promoted
  out_of_fuel : Promoted

-- The loop body on the variable that `iter` is at, before the rest of the loop.
promote_then : (Config → Promoted) → Option Config → Promoted
promote_then next none = fault
promote_then next (some c) = next c

promote_var : (Config → Promoted) → Bytes → Option Var → Config → Promoted
unfolding promote_then
promote_var next prefix none c = done c
promote_var next prefix (some v) c = promote_then next (promote_one prefix v c)

-- The loop walks the list while `tnX_config_set` appends to it, so `iter` is a position in the
-- list as it now is.
promote_from : ℕ → Bytes → ℕ → Config → Promoted
unfolding promote_var
promote_from zero prefix i c = out_of_fuel
promote_from (suc fuel) prefix i c =
    promote_var (promote_from fuel prefix (i + 1)) prefix (get_elem? c.vars i) c

-- The letters and NULs of the names still ahead.
abbrev pub weight : List Var → ℕ
weight [] = 0
weight (v ∷ vars) = length v.name + 1 + weight vars

-- `tnX_config_promote`
unfoldable pub promote : Config → Bytes → Promoted
unfolding promote_from promote_one
promote c prefix = promote_from (weight c.vars + 1) prefix 0 c

-- An argument of `tnX_config_parse_argv` that holds a `=`: the option before it and the value.
unfoldable pub split_eq : Bytes → Option (Bytes × Bytes)
split_eq [] = none
split_eq (c ∷ arg) =
    if c == b'='
    then some ([], arg)
    else elim (split_eq arg) [ none ↦ none | some (opt, val) ↦ some (c ∷ opt, val) ]

promoted : Option Config → Bytes → Promoted
promoted none prefix = fault
promoted (some c) prefix = promote c prefix

updated : Option Config → Promoted
updated none = fault
updated (some c) = done c

-- An argument that starts with neither `+` nor `-`: an option with its value, or a profile.
named_arg : Config → Bytes → Option (Bytes × Bytes) → Promoted
unfolding promoted updated promote
named_arg c arg (some (opt, val)) = updated (set c opt config_string (text val))
named_arg c arg none = promoted (set c (codes "host") config_string (text arg)) arg

-- One round of the loop of `tnX_config_parse_argv`.
unfoldable pub parse_arg : Config → Bytes → Promoted
unfolding named_arg split_eq set updated
parse_arg c [] = named_arg c [] none
parse_arg c (x ∷ arg) =
    if x == b'+'
    then updated (set c arg config_string (text (codes "1")))
    else if x == b'-'
    then updated (set c arg config_string (text (codes "0")))
    else named_arg c (x ∷ arg) (split_eq (x ∷ arg))

args_then : (Config → Promoted) → Promoted → Promoted
args_then next (done c) = next c
args_then next fault = fault
args_then next out_of_fuel = out_of_fuel

-- `tnX_config_parse_argv`, over the arguments behind `argv[0]`
unfoldable pub parse_argv : Config → List Bytes → Promoted
unfolding args_then parse_arg
parse_argv c [] = done c
parse_argv c (arg ∷ args) = args_then (λ d. parse_argv d args) (parse_arg c arg)
