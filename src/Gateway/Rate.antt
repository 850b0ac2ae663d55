-- ===== src/Gateway/Rate.antt =====
-- `rate_limit_allows`: the messages of a client in a fixed or a sliding window of time.
pub mod Window
use asterion.Prelude.{
  ℕ, suc, ◌%◌, ◌^◌, ◌==◌, Bool, true, false, not, ◌||◌, Option, none, some, List, [], ◌∷◌, ◌++◌,
  leb, if◌then◌else◌, length,
}
use asterion.Prelude.Int.{ℤ, pos, ◌-ℤ◌, leb_ℤ}
use asterion.Prelude.Assoc.{find, put}
use asterion.Matching.Admit.{NewOrderRequest}
use asterion.Gateway.{RiskGateway, RateState, RateLimitMode, fixed_window, sliding_window}

abbrev pub new_rate_state : RateState
new_rate_state = record {
  window_start_ns = pos 0;
  count = 0;
  active = false;
  sliding_timestamps = [];
}

-- `rate_states_[client_id]`.
abbrev pub rate_or_new : Option RateState → RateState
rate_or_new none = new_rate_state
rate_or_new (some s) = s

-- Pops the timestamps at the front that have left the window.
unfoldable pub drop_expired : ℤ → ℤ → List ℤ → List ℤ
drop_expired window now_ns [] = []
drop_expired window now_ns (t ∷ ts) =
    let rest = drop_expired window now_ns ts in if leb_ℤ window (now_ns -ℤ t) then rest else t ∷ ts

-- The state of a client after a message, and how many messages its window holds.
unfoldable pub count_message : RateLimitMode → ℤ → ℤ → RateState → RateState × ℕ
unfolding drop_expired
count_message sliding_window window now_ns s =
    let kept = drop_expired window now_ns s.sliding_timestamps ++ now_ns ∷ [] in
    (record s { sliding_timestamps = kept }, length kept)
count_message fixed_window window now_ns s =
    let expired = not s.active || leb_ℤ window (now_ns -ℤ s.window_start_ns) in
    let count = suc (if expired then 0 else s.count) % 2 ^ 32 in
    (
      record s {
        window_start_ns = if expired then now_ns else s.window_start_ns;
        active = true;
        count = count;
      },
      count,
    )

-- The gateway, whether the message is allowed, and the observed rate.
unfoldable pub rate_limit_allows : NewOrderRequest → ℤ → RiskGateway → RiskGateway × Bool × ℤ
unfolding count_message
rate_limit_allows r now_ns g =
    if (g.limits.max_messages_per_window == 0) || leb_ℤ g.limits.rate_window_ns (pos 0)
    then (g, true, pos 0)
    else let (state, count) =
        count_message g.limits.rate_limit_mode g.limits.rate_window_ns now_ns
          (rate_or_new (find r.client_id g.rate_states)) in
      (
        record g { rate_states = put r.client_id state g.rate_states },
        leb count g.limits.max_messages_per_window,
        pos count,
      )
