-- ===== src/Application/Relay/Counts.antt =====
-- The numbers that the relay and the recovery report.
use pipeline_server.Prelude.{ℕ, ◌+◌, ◌≤◌, ◌<◌, Bool, List, [], ◌∷◌, length, arith, if◌then◌else◌}
use pipeline_server.Result.{Result, ok, err}
use native.Mathlib.Nat.{zero-add}
use pipeline_server.Effects.{Action, and_then, ◌>>=◌}
use pipeline_server.Effects.Keeps.{OnOk}
use pipeline_server.Effects.Returns.{
  Returns, Returns-pure, Returns-try, Returns-bind, Returns-bind_knowing,
}
use pipeline_server.Domain.Models.{OutboxCriteria}
use pipeline_server.Domain.Outbox.{OutboxMessage}
use pipeline_server.Application.Relay.{
  OutboxRelayService, publish, relay_one, relay_loop, relay, recover, recover_one, recover_loop,
}

module _ {S : Type 0} (service : OutboxRelayService S) where
  -- One message counts for one at most.
  abbrev OneMore : ℕ → ℕ → Type 0
  OneMore n n' = (n ≤ n') × (n' ≤ n + 1)

  counted : (updated : Bool) (n : ℕ) → OneMore n (if updated then n + 1 else n)
  counted updated n = ground arith

  relay_one-OneMore : (msg : OutboxMessage) (n : ℕ) → Returns (OneMore n) (relay_one service msg n)
  unfolding relay_one publish
  relay_one-OneMore msg n = Returns-bind _ _ λ t. Returns-bind _ _ λ _.
      Returns-try _ _
        (Returns-bind _ _ λ _.
          Returns-bind _ _ λ t'. Returns-bind _ _ (λ updated. Returns-pure _ (counted updated n)))
        (λ e. Returns-pure n (omega arith))

  weaker :
      (msg : OutboxMessage) (rest : List OutboxMessage) (n : ℕ) {n' : ℕ} (r : Result ℕ)
      → OneMore n n'
      → OnOk (λ k. k ≤ n' + length rest) r
      → OnOk (λ k. k ≤ n + length (msg ∷ rest)) r
  weaker msg rest n (ok k) h p = omega arith
  weaker msg rest n (err e) h p = tt

  relay_loop-le :
      (messages : List OutboxMessage) (n : ℕ)
      → Returns (λ n'. n' ≤ n + length messages) (relay_loop service messages n)
  unfolding relay_loop
  relay_loop-le [] n = Returns-pure n (omega arith)
  relay_loop-le (msg ∷ rest) n =
      Returns-bind_knowing (OneMore n) _ _ (relay_one-OneMore msg n)
        λ n' h. record { on = λ s. weaker msg rest n _ h ((relay_loop-le rest n').on s) }

  recover_one-OneMore :
      (msg : OutboxMessage) (n : ℕ) → Returns (OneMore n) (recover_one service msg n)
  unfolding recover_one recover
  recover_one-OneMore msg n =
      Returns-try _ _
        (Returns-bind _ _ λ t.
          Returns-bind _ _ λ t'. Returns-bind _ _ (λ updated. Returns-pure _ (counted updated n)))
        (λ e. Returns-pure n (omega arith))

  recover_loop-le :
      (zombies : List OutboxMessage) (n : ℕ)
      → Returns (λ n'. n' ≤ n + length zombies) (recover_loop service zombies n)
  unfolding recover_loop
  recover_loop-le [] n = Returns-pure n (omega arith)
  recover_loop-le (msg ∷ rest) n =
      Returns-bind_knowing (OneMore n) _ _ (recover_one-OneMore msg n)
        λ n' h. record { on = λ s. weaker msg rest n _ h ((recover_loop-le rest n').on s) }

  -- A service that fetches and loops counts at most what it may fetch.
  fetched-le :
      (c : OutboxCriteria) (loop : List OutboxMessage → Action S ℕ) (s : S)
      → service.outbox_repo.intact s
      → 0 < c.limit
      → ((ms : List OutboxMessage) → Returns (λ n. n ≤ length ms) (loop ms))
      → OnOk (λ n. n ≤ c.limit) ((service.outbox_repo.find_by c >>= loop) s).0
  unfolding ◌>>=◌
  fetched-le c loop s h pos bound =
      then_loop (service.outbox_repo.find_by c s).0 _ (service.outbox_repo.find_by_limit c s h pos)
    where
      within :
          (ms : List OutboxMessage) (r : Result ℕ)
          → length ms ≤ c.limit
          → OnOk (λ n. n ≤ length ms) r
          → OnOk (λ n. n ≤ c.limit) r
      within ms (ok n) fits p = omega arith
      within ms (err e) fits p = tt

      then_loop :
          (r : Result (List OutboxMessage)) (s' : S)
          → OnOk (λ ms. length ms ≤ c.limit) r
          → OnOk (λ n. n ≤ c.limit) (and_then r loop s').0
      then_loop (ok ms) s' fits = within ms (loop ms s').0 fits ((bound ms).on s')
      then_loop (err e) s' fits = tt

-- Over an intact store and with a fetch limit above 0, the relay reports at most as many
-- published messages as its fetch limit, if it returns.
pub relay-le_fetch_limit :
    {S : Type 0} (service : OutboxRelayService S) (s : S)
    → service.outbox_repo.intact s
    → 0 < service.fetch_limit
    → OnOk (λ n. n ≤ service.fetch_limit) (relay service s).0
unfolding relay
relay-le_fetch_limit service s h pos =
    fetched-le service _ _ s h pos (λ ms. rw zero-add at (relay_loop-le service ms 0))
