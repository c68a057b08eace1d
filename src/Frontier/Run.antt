-- ===== src/Frontier/Run.antt =====
-- app/services/frontier.py: any sequence of calls of a frontier's public methods.
use clusy_crawler.Base.{Bool, Option, List, [], ◌∷◌, Text, ℤ, Float}
use clusy_crawler.Url.Split.{Platform}
use clusy_crawler.Frontier.Types.{Frontier, FrontierLease, TerminalReason}
use clusy_crawler.Frontier.Admit.{admit}
use clusy_crawler.Frontier.Claim.{claim}
use clusy_crawler.Frontier.Report.{succeed, fail, cancel_pending, RetryAfter, DateParser}
use clusy_crawler.Frontier.Wake.{next_wake_at}

-- A call with its arguments.
pub data Call : Type 0 where
  admits : Text → ℤ → ℤ → Option Text → Float → Call
  claims : Float → Call
  succeeds : FrontierLease → Call
  fails : FrontierLease → Float → Bool → RetryAfter → Option DateParser → TerminalReason → Call
  cancels : Call
  asks_wake : Float → Call

-- The state after a call, whether it returned or raised.
unfoldable pub step : Platform → Call → Frontier → Frontier
step p (admits url depth priority parent_url ready_at) f =
    (admit p url depth priority parent_url ready_at f).1
step p (claims now) f = (claim now f).1
step p (succeeds lease) f = (succeed lease f).1
step p (fails lease now retryable retry_after wall_now reason) f =
    (fail lease now retryable retry_after wall_now reason f).1
step p cancels f = (cancel_pending f).1
step p (asks_wake now) f = (next_wake_at now f).1

unfoldable pub run : Platform → List Call → Frontier → Frontier
run p [] f = f
run p (c ∷ cs) f = run p cs (step p c f)
