-- ===== src/Aftpd/Names.antt =====
-- The requests of asuite/aftpd.c that name a file or a directory.
use linux_sna.Base.{ℕ, ◌==◌, if◌then◌else◌, Option, none, some, Cmd, pure, ◌>>=◌, ◌>>◌}
use linux_sna.Asuite.{AsuiteRecord, clear, settype, append_char}
use linux_sna.Asuite.Codes.{
  filespec, new_filespec, simple_response, return_code, fail_input_error, action_not_performed,
  file_not_found, access_denied, file_exists, cross_devices,
}
use linux_sna.Asuite.Cpic.{Cpic}
use linux_sna.Aftpd.{
  Errno, enoent, eacces, eperm, eexist, exdev, Os, OsReply, Globals, Locals, on_record,
  param_string, with_params, needs, negative, os_call, respond, send_record, unknown, on_result,
}
use linux_sna.Aftpd

-- `case AFTP_FILESPEC` and `case AFTP_NEW_FILESPEC`
unfoldable pub set_filespec : Locals → Cmd Globals (Option Locals)
unfolding param_string
set_filespec vars = do s ← param_string; pure (some (record vars { filespec_ptr = some s }))

unfoldable pub set_newfilespec : Locals → Cmd Globals (Option Locals)
unfolding param_string
set_newfilespec vars = do s ← param_string; pure (some (record vars { newfilespec_ptr = some s }))

-- `switch(errno)` of each function
abbrev pub change_dir_error : Errno → ℕ
change_dir_error enoent = file_not_found
change_dir_error _ = action_not_performed

abbrev pub delete_error : Errno → ℕ
delete_error enoent = file_not_found
delete_error eperm = access_denied
delete_error eacces = access_denied
delete_error _ = action_not_performed

abbrev pub create_dir_error : Errno → ℕ
create_dir_error eexist = file_exists
create_dir_error eacces = access_denied
create_dir_error _ = action_not_performed

abbrev pub remove_dir_error : Errno → ℕ
remove_dir_error eexist = file_exists
remove_dir_error enoent = file_not_found
remove_dir_error eperm = access_denied
remove_dir_error eacces = access_denied
remove_dir_error _ = action_not_performed

abbrev pub rename_error : Errno → ℕ
rename_error eexist = file_exists
rename_error exdev = cross_devices
rename_error enoent = file_not_found
rename_error eperm = access_denied
rename_error eacces = access_denied
rename_error _ = action_not_performed

module _ (cpic : Cpic) (fresh : AsuiteRecord) where
  -- `switch(key)` of `a_delete`, `a_create_dir` and `a_remove_dir`
  unfoldable pub one_name : ℕ → Locals → Cmd Globals (Option Locals)
  unfolding set_filespec unknown
  one_name key vars = if key == filespec then set_filespec vars else unknown cpic fresh

  -- `switch(key)` of `a_rename`
  unfoldable pub two_names : ℕ → Locals → Cmd Globals (Option Locals)
  unfolding set_filespec set_newfilespec unknown
  two_names key vars =
      if key == filespec
      then set_filespec vars
      else if key == new_filespec
      then set_newfilespec vars
      else unknown cpic fresh

module _ (cpic : Cpic) (os : Os) (fresh : AsuiteRecord) where
  changed : Locals → OsReply → Cmd Globals (Option Locals)
  unfolding respond
  changed vars reply =
      if negative reply.result
      then respond cpic fresh fail_input_error (change_dir_error reply.errno) >> pure none
      else pure (some vars)

  -- `switch(key)` of `a_change_dir`, which calls `chdir` in its loop
  unfoldable pub change_dir_key : ℕ → Locals → Cmd Globals (Option Locals)
  unfolding param_string os_call changed
  change_dir_key key vars =
      if key == filespec
      then param_string >>= (λ s. os_call os (Aftpd.chdir s) >>= changed vars)
      else pure (some vars)

  -- `a_change_dir`
  unfoldable pub a_change_dir : Cmd Globals (Unit {0})
  unfolding with_params change_dir_key settype append_char send_record
  a_change_dir = with_params change_dir_key (λ vars. do
    on_record (clear >> settype simple_response >> append_char return_code 0)
    send_record cpic fresh
    pure tt)

  -- `a_delete`
  unfoldable pub a_delete : Cmd Globals (Unit {0})
  unfolding with_params one_name os_call on_result
  a_delete = with_params (one_name cpic fresh) (λ vars.
      needs vars.filespec_ptr
        (λ name. os_call os (Aftpd.unlink name) >>= on_result cpic fresh delete_error))

  -- `a_create_dir`
  unfoldable pub a_create_dir : Cmd Globals (Unit {0})
  unfolding with_params one_name os_call on_result
  a_create_dir = with_params (one_name cpic fresh) (λ vars.
      needs vars.filespec_ptr
        (λ name. os_call os (Aftpd.mkdir name) >>= on_result cpic fresh create_dir_error))

  -- `a_remove_dir`
  unfoldable pub a_remove_dir : Cmd Globals (Unit {0})
  unfolding with_params one_name os_call on_result
  a_remove_dir = with_params (one_name cpic fresh) (λ vars.
      needs vars.filespec_ptr
        (λ name. os_call os (Aftpd.rmdir name) >>= on_result cpic fresh remove_dir_error))

  -- `a_rename`
  unfoldable pub a_rename : Cmd Globals (Unit {0})
  unfolding with_params two_names os_call on_result
  a_rename = with_params (two_names cpic fresh) (λ vars. needs vars.filespec_ptr (λ name.
      needs vars.newfilespec_ptr
        (λ new. os_call os (Aftpd.rename name new) >>= on_result cpic fresh rename_error)))
