-- ===== src/Handler/Errors.antt =====
-- What an error response tells the client.
use fileloft.Base.{◌≡◌, refl, ◌∙◌, sym, []}
use fileloft.Error.{TusError, status_code, client_message}
use fileloft.Error.Status.{IsInternal}
use fileloft.Crates.{Crates}
use fileloft.Config.{Config}
use fileloft.Handler.Base.{TusResponse, error_response}

module _ (x : Crates) (config : Config) where
  abbrev internal_response : TusResponse x
  internal_response = error_response x config (TusError.internal [])

  internal_same : (e : TusError) → IsInternal e → error_response x config e ≡ internal_response
  unfolding error_response status_code client_message
  internal_same (TusError.io why) _ = refl
  internal_same (TusError.serialization why) _ = refl
  internal_same (TusError.internal why) _ = refl
  internal_same _ none = absurd none

  -- Any two I/O, serialization or internal errors give the same response: nothing of such an error
  -- reaches the client.
  pub error_response_private :
      (e other : TusError)
      → IsInternal e
      → IsInternal other
      → error_response x config e ≡ error_response x config other
  error_response_private e other inside inside' =
      internal_same e inside ∙ sym (internal_same other inside')
