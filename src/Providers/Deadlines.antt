-- ===== src/Providers/Deadlines.antt =====
-- with_deadlines (app/providers/router.py): a token stream under a first-token and an inter-token
-- deadline. Time is in milliseconds.
use Prim.Native.String.{◌++◌}
use llm_service.Prelude.{
  ℕ, String, Bool, true, false, Option, none, some, List, [], ◌∷◌, leb, if◌then◌else◌,
}
use llm_service.Errors.{Exc, ExceptionClass, ProviderClass, make_error}

-- What an adapter's `stream` does at each pull, after a wait: yield a token, end, or raise.
pub data Source : Type 0 where
  yields : ℕ → String → Source → Source
  ends : ℕ → Source
  raises : ℕ → Exc → Source

-- What a consumer of the stream sees: the tokens in order, and how the stream ended.
pub data End : Type 0 where
  finished : End
  failed : Exc → End

pub record Delivery : Type 0 where
  pub tokens : List String
  pub end : End

-- `asyncio.wait_for` lets an answer through that comes within the limit.
unfoldable pub in_time : ℕ → Option ℕ → Bool
in_time wait none = true
in_time wait (some limit) = leb wait limit

-- The error that the handler of `asyncio.TimeoutError` raises. With no limit its message cannot be
-- formatted (`{limit:g}` of None), so that a TypeError comes out. With one, the message is shortened by the
-- limit, whose printing as a float is left out.
unfoldable pub timeout_failure : Bool → Option ℕ → String → Exc
timeout_failure first none label = make_error (ExceptionClass.other "TypeError") "" label
timeout_failure first (some limit) label =
    make_error (ExceptionClass.provider ProviderClass.provider_timeout_error) "PROVIDER_TIMEOUT" (
      label
      ++ (if first
          then " provider produced no first token"
          else " provider produced no next token"))

-- A TimeoutError of the source itself is caught by the same handler.
unfoldable pub source_failure : Bool → Option ℕ → String → Exc → Exc
source_failure first limit label e = elim e.cls [
  | ExceptionClass.timeout_error ↦ timeout_failure first limit label
  | _ ↦ e
]

-- the `while True` loop; the third argument is the limit of this pull, the fourth that of all later ones
unfoldable pub pull : Bool → String → Option ℕ → Option ℕ → Source → Delivery
pull first label limit idle (yields wait token rest) =
    let later = pull false label idle idle rest in
    if in_time wait limit
    then record { tokens = token ∷ later.tokens; end = later.end }
    else record { tokens = []; end = failed (timeout_failure first limit label) }
pull first label limit idle (ends wait) = record {
  tokens = [];
  end = if in_time wait limit then finished else failed (timeout_failure first limit label);
}
pull first label limit idle (raises wait e) = record {
  tokens = [];
  end = failed (
      if in_time wait limit
      then source_failure first limit label e
      else timeout_failure first limit label);
}

unfoldable pub with_deadlines : Source → Option ℕ → Option ℕ → String → Delivery
with_deadlines source first_timeout idle_timeout label =
    pull true label first_timeout idle_timeout source
