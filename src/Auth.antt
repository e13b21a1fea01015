-- ===== src/Auth.antt =====
-- gateway/auth: who is making a request. `Keys` models the API keys, `Tokens` the JWTs, and this
-- file what both come to.
pub mod Keys
pub mod Tokens
pub mod Dispatch
mod Examples
use inference_box.Prelude.{ℕ, String, List, Bool, ◌||◌, Option}
use inference_box.Dict.{member}

pub data Method : Type 0 where
  jwt apikey : Method

pub record Principal : Type 0 where
  pub subject : String
  pub scopes : List String
  pub method : Method
  pub keyid : Option String
  pub token_budget : Option ℕ
  pub max_concurrency : Option ℕ

abbrev pub has_scope : Principal → String → Bool
has_scope p scope = member scope p.scopes || member "*" p.scopes
