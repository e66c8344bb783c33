-- ===== src/Contracts/Rpc.antt =====
-- pkg/contracts/rpc.go: JSON-RPC responses and errors. An error code is the negative of the number
-- kept here, since every code of the protocol is negative.
use tip_olg_ucentral_client.Prelude.{String, Option, some, Bytes}

pub data ErrorCode : Type 0 where
  err_parse err_invalid_request err_method_not_found err_invalid_params err_internal : ErrorCode

pub data AppCode : Type 0 where
  app_failure timeout service_unavailable validation_failed rollback_success rollback_failed :
      AppCode

pub record JsonRpcError : Type 0 where
  pub code : ErrorCode
  pub message : String
  pub application_code : Option AppCode

pub record JsonRpcResponse : Type 0 where
  pub result : Bytes
  pub error : Option JsonRpcError
  pub id : Bytes

-- Every application code of `AppCode` is supported, so the error return is not reached.
unfoldable pub new_internal_json_rpc_error : AppCode → String → JsonRpcError
new_internal_json_rpc_error app message = record {
  code = err_internal;
  message = message;
  application_code = some app;
}
