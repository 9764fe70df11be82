-- ===== src/Asuite/Codes.antt =====
-- The numbers of libasuite/asuitecommon.h, libaftp.h and appfftp.h.
use linux_sna.Base.{ℕ}

-- AFTP_SIMPLE_RESPONSE, which is ASUITE_STATUS_RECORD
abbrev pub simple_response : ℕ
simple_response = 1

-- AFTP_QUERY_SYSTEM
abbrev pub query_system : ℕ
query_system = 2

-- AFTP_CHANGE_DIR
abbrev pub change_dir_code : ℕ
change_dir_code = 6

-- AFTP_QUERY_DIR
abbrev pub query_dir : ℕ
query_dir = 7

-- AFTP_CREATE_DIR
abbrev pub create_dir_code : ℕ
create_dir_code = 8

-- AFTP_REMOVE_DIR
abbrev pub remove_dir_code : ℕ
remove_dir_code = 9

-- AFTP_DELETE
abbrev pub delete_code : ℕ
delete_code = 10

-- AFTP_RENAME
abbrev pub rename_code : ℕ
rename_code = 11

-- AFTP_TOWER_REQUEST
abbrev pub tower_request : ℕ
tower_request = 16

-- AFTP_CLOSE
abbrev pub close_code : ℕ
close_code = 18

-- AFTP_STATUS_RETURN_CODE
abbrev pub return_code : ℕ
return_code = 2

-- AFTP_STATUS_CATEGORY_INDEX
abbrev pub category_index : ℕ
category_index = 4

-- AFTP_STATUS_PRIMARY_MSG
abbrev pub primary_msg_key : ℕ
primary_msg_key = 5

-- AFTP_FILESPEC
abbrev pub filespec : ℕ
filespec = 17

-- AFTP_NEW_FILESPEC
abbrev pub new_filespec : ℕ
new_filespec = 18

-- AFTP_SYSTEM_INFO
abbrev pub system_info : ℕ
system_info = 23

-- AFTP_RC_OK
abbrev pub rc_ok : ℕ
rc_ok = 0

-- AFTP_RC_COMM_FAIL_NO_RETRY
abbrev pub comm_fail_no_retry : ℕ
comm_fail_no_retry = 1

-- AFTP_RC_COMM_CONFIG_LOCAL
abbrev pub comm_config_local : ℕ
comm_config_local = 3

-- AFTP_RC_FAIL_FATAL
abbrev pub fail_fatal : ℕ
fail_fatal = 9

-- AFTP_RC_PROGRAM_INTERNAL_ERROR
abbrev pub program_internal_error : ℕ
program_internal_error = 10

-- AFTP_RC_PARAMETER_CHECK
abbrev pub parameter_check : ℕ
parameter_check = 11

-- AFTP_RC_HANDLE_NOT_VALID
abbrev pub handle_not_valid : ℕ
handle_not_valid = 12

-- AFTP_RC_STATE_CHECK
abbrev pub state_check : ℕ
state_check = 13

-- AFTP_LIST_REQUEST
abbrev pub list_request_code : ℕ
list_request_code = 3

-- AFTP_SEND_FILE
abbrev pub send_file_code : ℕ
send_file_code = 12

-- AFTP_REQUEST_FILE
abbrev pub request_file_code : ℕ
request_file_code = 13

-- AFTP_FILE_DATA
abbrev pub file_data : ℕ
file_data = 14

-- AFTP_FILE_COMPLETE
abbrev pub file_complete : ℕ
file_complete = 15

-- AFTP_TOWER_RESPONSE
abbrev pub tower_response : ℕ
tower_response = 17

-- AFTP_TOWER_LIST
abbrev pub tower_list : ℕ
tower_list = 16

-- AFTP_MOD_TIME
abbrev pub mod_time : ℕ
mod_time = 21

-- AFTP_DATA_TYPE
abbrev pub data_type_key : ℕ
data_type_key = 24

-- AFTP_DATE_MODE
abbrev pub date_mode_key : ℕ
date_mode_key = 25

-- AFTP_WRITE_MODE
abbrev pub write_mode_key : ℕ
write_mode_key = 26

-- AFTP_RECORD_FORMAT
abbrev pub record_format_key : ℕ
record_format_key = 27

-- AFTP_RECORD_LENGTH
abbrev pub record_length_key : ℕ
record_length_key = 28

-- AFTP_ALLOCATION_SIZE
abbrev pub allocation_size_key : ℕ
allocation_size_key = 29

-- AFTP_BLOCK_SIZE
abbrev pub block_size_key : ℕ
block_size_key = 30

-- AFTP_RC_FAIL_INPUT_ERROR
abbrev pub fail_input_error : ℕ
fail_input_error = 6

-- A_ERR_UNKNOWN_PARAMETER
abbrev pub unknown_parameter : ℕ
unknown_parameter = 128

-- A_ERR_OUT_OF_MEMORY
abbrev pub out_of_memory : ℕ
out_of_memory = 136

-- A_ERR_ACTION_NOT_PERFORMED
abbrev pub action_not_performed : ℕ
action_not_performed = 601

-- A_ERR_FILE_NOT_FOUND
abbrev pub file_not_found : ℕ
file_not_found = 602

-- A_ERR_ACCESS_DENIED
abbrev pub access_denied : ℕ
access_denied = 603

-- A_ERR_FILE_EXISTS
abbrev pub file_exists : ℕ
file_exists = 606

-- A_ERR_CROSS_DEVICES
abbrev pub cross_devices : ℕ
cross_devices = 612
