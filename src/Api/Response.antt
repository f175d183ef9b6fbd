-- ===== src/Api/Response.antt =====
-- writeJSON and writeJSONError of pkg/api/handler.go: what a handler answers with.
use go_goodwe.Base.{ℕ}
use go_goodwe.Base.Text.{Text}

-- StatusOK with a body, or a status with a message.
pub data Response {ℓ} (A : Type ℓ) : Type ℓ where
  json : A → Response A
  json_error : ℕ → Text → Response A
