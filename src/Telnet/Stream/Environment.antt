-- ===== src/Telnet/Stream/Environment.antt =====
-- The stream's environment: what `tnX_stream_setenv` stores `tnX_stream_getenv` finds.
use linux_sna.Base.{Option, none, some, ◌≡◌, refl, ◌∙◌, Bytes, equal_iff, ok}
use linux_sna.Config
use linux_sna.Config.{Config, get_str, text}
use linux_sna.Config.Lookup.{IsNoList, set-get}
use linux_sna.Telnet.Stream.{Stream, env_name, or_new, store_config, setenv}

-- No list stands where the environment variable is looked up.
abbrev pub IsPlain : Option Config → Bytes → Type 0
IsPlain none name = Unit
IsPlain (some c) name = IsNoList (get_str c.vars (env_name name))

IsPlain-or_new :
    (o : Option Config) (name : Bytes)
    → IsPlain o name
    → IsNoList (get_str (or_new o).vars (env_name name))
unfolding or_new get_str
IsPlain-or_new none name h = tt
IsPlain-or_new (some c) name h = h

-- Unless the variable's name belongs to a list, `tnX_stream_setenv` succeeds and changes nothing
-- but the configuration, and the look-up that `tnX_stream_getenv` makes finds the value there.
pub setenv-getenv :
    (name v : Bytes) (s : Stream)
    → IsPlain s.config name
    → (d : Config) × (setenv name v s ≡ ok tt (record s { config = some d }))
      × (Config.get d (env_name name) ≡ some (text v))
unfolding setenv store_config
setenv-getenv name v s h =
    let (d, done, found) =
      set-get (or_new s.config) (env_name name) v (IsPlain-or_new s.config name h) in
    (d, rw done, found (env_name name) ∙ rw ((equal_iff (env_name name) (env_name name)).1 refl))
