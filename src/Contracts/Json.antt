-- ===== src/Contracts/Json.antt =====
-- What the code uses of the packages encoding/json and math/big, as a parameter.
use tip_olg_ucentral_client.Prelude.{ℕ, String, Option, List, Bytes}
use tip_olg_ucentral_client.Contracts.Rpc.{JsonRpcResponse}

-- What decoding a JSON-RPC id with `UseNumber` yields: no JSON value, a value with other content
-- behind it, a string, a number as it is written, or another value.
pub data JsonId : Type 0 where
  malformed trailing other : JsonId
  text : String → JsonId
  number : String → JsonId

pub record Json : Type 0 where
  pub decode_id : List ℕ → JsonId
  -- `new(big.Rat).SetString(v)` and `RatString`
  pub rat_string : String → Option String
  -- `json.Marshal` of a response
  pub marshal : JsonRpcResponse → Bytes
