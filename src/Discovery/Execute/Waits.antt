-- ===== src/Discovery/Execute/Waits.antt =====
-- The waits of database/poc/discovery_execution.py between two attempts.
use pepeuchiacluster.Prelude.{
  ℕ, zero, suc, ◌+◌, ◌-◌, ◌*◌, ◌≤◌, ◌≡◌, refl, Bool, true, false, Option, none, some, arith,
  if◌then◌else◌,
}
use pepeuchiacluster.Discovery.Errors.{runtime, ClassifiedError, RetryAfter}
use pepeuchiacluster.Discovery.Metadata.{Library}
use pepeuchiacluster.Discovery.Policy.{SourceTask}
use pepeuchiacluster.Discovery.Delays.{
  Wait, wait, refused, backoff_from, backoff_delay, server_delay,
}
use pepeuchiacluster.Discovery.Runtime.{ExecutionRuntime, Run, Action, Program}
use pepeuchiacluster.Discovery.Runtime.Rules.{
  Post, Carries, Carries-bind, Carries-weaken, Carries-given, Carries-pure, Carries-raise_for,
  Carries-read, Carries-update, Carries-if,
}
use pepeuchiacluster.Discovery.Runtime.Keeps.{
  Within, Fails, Waiting, sample-Waiting, sample-Measured, check_time-Measured,
}
use pepeuchiacluster.Discovery.Waiting.{
  no_time, Ending, unless, no_retry, too_long, asked_delay, jitter_for, waited_since, sleep_once,
  after_sleep, sleep_for, number_outcome, wait_outcome, reads_wall_time, wait_out, delay_of,
  plan_wait, after_error,
}

backoff_from_bound : (limit n delay : ℕ) → backoff_from limit n delay ≤ limit
unfolding backoff_from
backoff_from_bound limit zero delay = omega arith
backoff_from_bound limit (suc n) delay = ground (arith, backoff_from_bound limit n (delay * 2))

pub backoff_delay_bound : (limit first attempt : ℕ) → backoff_delay limit first attempt ≤ limit
unfolding backoff_delay
backoff_delay_bound limit first attempt = backoff_from_bound limit (attempt - 1) first

module _ (lib : Library) (rt : ExecutionRuntime) (task : SourceTask) (operation : ℕ → Program)
    (k : ℕ) where
  open task use {policy}

  abbrev W : Run → Type 0
  W = Within task k

  abbrev pub Ends : Option Ending → Run → Type 0
  Ends o b = Within task k b × (o ≡ none → task.idempotent ≡ true)

  number_outcome-Post :
      (o : Option ℕ) (b : Run) → W b → Post (Fails rt task k) (λ _. W) (number_outcome o, b)
  number_outcome-Post none b w = (tt, w)
  number_outcome-Post (some n) b w = w

  jitter_for-Keeps :
      (base : ℕ) → Carries (Fails rt task k) W (λ _. W) (jitter_for lib rt task operation base)
  unfolding jitter_for
  jitter_for-Keeps base = record {
    at_run = λ b w.
        number_outcome-Post (rt.jitter b.jitters base) (record b { jitters = b.jitters + 1 })
          (ground arith);
  }

  wait_outcome-Post :
      (o : Wait) (b : Run) → W b → Post (Fails rt task k) (λ _. W) (wait_outcome o, b)
  wait_outcome-Post (refused e) b w = (tt, w)
  wait_outcome-Post (wait n) b w = w

  asked_delay-Keeps :
      (answer : Option RetryAfter)
      → Carries (Fails rt task k) W (λ _. W) (asked_delay lib rt task operation answer)
  unfolding asked_delay
  asked_delay-Keeps answer = record {
    at_run = λ b w.
        wait_outcome-Post (server_delay answer (rt.wall_time b.wall_readings)) _
          (elim (reads_wall_time answer)
            as (λ t. W (if t then record b { wall_readings = b.wall_readings + 1 } else b)) [
              | true ↦ ground arith
              | false ↦ w
            ]);
  }

  delay_bound :
      (server base extra : ℕ)
      → server ≤ policy.max_delay
      → base ≤ policy.max_delay
      → delay_of lib rt task operation server base extra ≤ policy.max_delay
  delay_bound server base extra s h = omega arith

  sleep_once-Waiting :
      (delay before : ℕ)
      → delay ≤ policy.max_delay
      → Carries
          (Fails rt task k)
          (Waiting rt task k before)
          (λ _. Waiting rt task k before)
          (sleep_once lib rt task operation delay)
  unfolding sleep_once
  sleep_once-Waiting delay before d = record { at_run = λ b w. ground arith }

  waited_since-Within :
      (before : ℕ) (b : Run)
      → Waiting rt task k before b
      → W (waited_since lib rt task operation before b)
  waited_since-Within before b w = ground arith

  after_sleep-Waiting :
      (before : ℕ) (came_back : Bool)
      → Carries
          (Fails rt task k)
          (Waiting rt task k before)
          (λ _. Waiting rt task k before)
          (after_sleep lib rt task operation before came_back)
  unfolding after_sleep
  after_sleep-Waiting before true = Carries-pure tt (λ b w. w)
  after_sleep-Waiting before false = Carries-bind (sample-Waiting rt task k before) λ n.
      Carries-bind (Carries-update {Q = λ _. W} _ (waited_since-Within before))
        λ _. Carries-raise_for runtime (λ b w. (tt, w))

  sleep_for-Waiting :
      (delay before : ℕ)
      → delay ≤ policy.max_delay
      → Carries
          (Fails rt task k)
          (Waiting rt task k before)
          (λ _. Waiting rt task k before)
          (sleep_for lib rt task operation delay before)
  unfolding sleep_for
  sleep_for-Waiting delay before d =
      Carries-bind (sleep_once-Waiting delay before d) (after_sleep-Waiting before)

  Waiting-now : (before : ℕ) (b : Run) → W b × (b.last ≡ before) → Waiting rt task k before b
  Waiting-now before b h = ground arith

  wait_out-Ends :
      (delay : ℕ)
      → delay ≤ policy.max_delay
      → Carries (Fails rt task k) W (λ _. W) (wait_out lib rt task operation delay)
  unfolding wait_out
  wait_out-Ends delay d =
      Carries-bind (Carries-read {Q = λ before b. W b × (b.last ≡ before)} _ (λ b w. (w, refl)))
        λ before.
          Carries-bind {Q = λ _. Waiting rt task k before}
            (Carries-if _ (λ _. Carries-pure tt (Waiting-now before))
              λ _.
                Carries-weaken (sleep_for-Waiting delay before d) (Waiting-now before) (λ e b h. h)
                  (λ _ b h. h))
            λ _. Carries-bind (sample-Waiting rt task k before) λ remaining.
              Carries-bind {Q = λ _. W}
                (Carries-if _ (λ _. Carries-pure tt (λ b h. h.within))
                  λ _. Carries-update _ (waited_since-Within before))
                λ _. Carries-read _ (λ b w. w)

  unless-Carries :
      {P : Run → Type 0} {Q : Option Ending → Run → Type 0} (stop : Option Ending)
      {rest : Action (Option Ending)}
      → ((e : Ending) → stop ≡ some e → (b : Run) → P b → Q (some e) b)
      → (stop ≡ none → Carries (Fails rt task k) P Q rest)
      → Carries (Fails rt task k) P Q (unless stop rest)
  unfolding unless
  unless-Carries (some e) stops goes = record { at_run = stops e refl }
  unless-Carries none stops goes = record { at_run = λ b p. (goes refl).at_run b p }

  plan_wait-Keeps :
      (server : ℕ)
      → server ≤ policy.max_delay
      → Carries (Fails rt task k) W (λ _. W) (plan_wait lib rt task operation server)
  unfolding plan_wait
  plan_wait-Keeps server s =
      Carries-bind
        (Carries-read {Q = λ base b. W b × (base ≤ policy.max_delay)} _
          (λ b w. (w, backoff_delay_bound policy.max_delay policy.backoff b.attempts)))
        λ base. Carries-given λ h. Carries-bind (jitter_for-Keeps base) λ extra.
          Carries-bind {Q = λ _. W}
            (Carries-weaken (check_time-Measured rt task k) (λ b w. w) (λ e b f. f)
              (λ n b m. m.0.0))
            λ remaining.
              unless-Carries
                (no_time lib rt task operation server
                  (delay_of lib rt task operation server base extra) remaining)
                (λ e _ b w. w) λ _. wait_out-Ends _ (delay_bound server base extra s h)

  too_long_bound :
      (server remaining : ℕ)
      → too_long lib rt task operation server remaining ≡ none
      → server ≤ policy.max_delay
  unfolding too_long
  too_long_bound server remaining e = ground arith

  no_retry_idempotent :
      (e : ClassifiedError) (remaining : ℕ) (b : Run)
      → no_retry lib rt task operation e remaining b ≡ none
      → task.idempotent ≡ true
  unfolding no_retry
  no_retry_idempotent e remaining b h = ground arith

  -- Where an attempt's exception does not end the execution, the task is idempotent.
  pub after_error-Ends :
      (e : ClassifiedError) → Carries (Fails rt task k) W Ends (after_error lib rt task operation e)
  unfolding after_error
  after_error-Ends e = Carries-bind {Q = λ _. W} (Carries-update _ (λ b w. ground arith)) λ _.
      Carries-bind {Q = λ _. W}
        (Carries-weaken (sample-Measured rt task k) (λ b w. w) (λ e' b f. f) (λ n b m. m.0))
        λ remaining.
          Carries-bind
            (Carries-read {Q = λ stop b. W b × (stop ≡ none → task.idempotent ≡ true)} _
              (λ b w. (w, no_retry_idempotent e remaining b)))
            λ stop. Carries-given λ idem.
              unless-Carries stop (λ end _ b w. (w, λ same. cc))
                λ none_. Carries-bind (asked_delay-Keeps e.retry_after) λ server.
                  Carries-weaken
                    (unless-Carries {Q = λ _. W} _ (λ end _ b w. w)
                      λ fits. plan_wait-Keeps server (too_long_bound server remaining fits))
                    (λ b w. w) (λ e' b f. f) (λ o b w. (w, λ _. idem none_))
