-- ===== src/SocManager/ApiError.antt =====
-- The error codes of the Caliptra interface (romtime/include/romtime/soc_manager.hpp). The manager
-- reports the errors of the ROM, and none of these.

pub data CaliptraApiError : Type 0 where
  success buffer_too_large_for_mailbox unable_to_lock_mailbox : CaliptraApiError
  mailbox_timeout mailbox_cmd_failed mailbox_resp_type_too_small : CaliptraApiError
  mailbox_req_type_too_small mailbox_no_response_data unknown_command_status : CaliptraApiError
  mailbox_resp_invalid_checksum : CaliptraApiError
