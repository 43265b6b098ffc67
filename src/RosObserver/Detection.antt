-- ===== src/RosObserver/Detection.antt =====
-- When the poll loop of ros_observer/src/ros_observer.cpp reports an error: the counters between two
-- signs of life, in closed form.
use autoware_ai_common.Base.{
  Bool, Exists, Exists-map, List, [], arith, false, if◌then◌else◌, inl, inr, refl, suc, sym, true,
  zero, ℕ, ◌*◌, ◌+◌, ◌<◌, ◌↔◌, ◌∙◌, ◌∷◌, ◌≡◌,
}
use autoware_ai_common.RosObserver.Memory.{
  Module, Shm, ShmVitalCounter, advance, as_vehicle_driver, counter, emergency_handler,
  error_detected, health_aggregator, min_uint, put_counter, ros_observer, shm_counter_max,
  twist_gate, ymc_vehicle_driver,
}
use autoware_ai_common.RosObserver.Bounds.{
  IsBounded, IsLow, counter-IsLow, poll-IsBounded, step-IsBounded,
}
use autoware_ai_common.RosObserver.Client.{ShmVitalMonitor, cnt_clear, init_counter}
use autoware_ai_common.RosObserver.Events.{client, step}
use autoware_ai_common.RosObserver.{
  Observer, error_in, poll, poll_counters, polling_interval_msec, polls, report,
}

-- The modules whose silence the poll loop looks for.
abbrev pub watched : List Module
watched =
    health_aggregator ∷ emergency_handler ∷ twist_gate ∷ ymc_vehicle_driver ∷ as_vehicle_driver ∷ []

-- A counter after some polls and no sign of life: its value in closed form.
pub record Silent (n : ℕ) (c d : ShmVitalCounter) : Type 0 where
  pub activated : d.activated ≡ c.activated
  pub thresh : d.thresh ≡ c.thresh
  pub value :
      d.value
      ≡ (if c.activated then min_uint (c.value + n * polling_interval_msec) shm_counter_max else 0)

advance-Silent : (c : ShmVitalCounter) → IsLow c → Silent 1 c (advance polling_interval_msec c)
unfolding advance
advance-Silent c low = record { activated = refl; thresh = refl; value = ground arith }

advance-Silent-suc :
    (n : ℕ) (c d : ShmVitalCounter)
    → IsLow c
    → Silent (suc n) c d
    → Silent (suc (suc n)) c (advance polling_interval_msec d)
unfolding advance
advance-Silent-suc n c d low s = record {
  activated = s.activated;
  thresh = s.thresh;
  value = ground (arith, s.activated, s.value);
}

abbrev pub IsWatched : Module → Type 0
IsWatched ros_observer = ⊥
IsWatched _ = Unit {0}

-- What a poll leaves of a counter, but for the module status.
abbrev SameLife : ShmVitalCounter → ShmVitalCounter → Type 0
SameLife c d = (d.activated ≡ c.activated) × (d.thresh ≡ c.thresh) × (d.value ≡ c.value)

report-SameLife :
    (m : Module) (error prev : Bool) (s : Shm)
    → SameLife (counter m s) (counter m (report error prev s))
unfolding counter report
report-SameLife health_aggregator true prev s = (refl, refl, refl)
report-SameLife health_aggregator false prev s = (refl, refl, refl)
report-SameLife _ true prev s = (refl, refl, refl)
report-SameLife _ false prev s = (refl, refl, refl)

poll_counters-counter :
    (m : Module) (s : Shm)
    → IsWatched m
    → counter m (poll_counters s) ≡ advance polling_interval_msec (counter m s)
unfolding counter poll_counters
poll_counters-counter ros_observer s w = absurd w
poll_counters-counter _ s w = refl

Silent-SameLife : (n : ℕ) (c d e : ShmVitalCounter) → Silent n c d → SameLife d e → Silent n c e
Silent-SameLife n c d e s l = record {
  activated = l.0 ∙ s.activated;
  thresh = l.1 ∙ s.thresh;
  value = l.2 ∙ s.value;
}

poll-Silent :
    (n : ℕ) (m : Module) (c : ShmVitalCounter) (o : Observer)
    → IsWatched m
    → Silent n c (advance polling_interval_msec (counter m o.shm))
    → Silent n c (counter m (poll o).shm)
poll-Silent n m c o w s =
    Silent-SameLife n c (counter m (poll_counters o.shm)) _ (rw (poll_counters-counter m o.shm w) s)
      (unfold poll in report-SameLife m _ _ (poll_counters o.shm))

polls-IsBounded : (n : ℕ) (o : Observer) → IsBounded o.shm → IsBounded (polls n o).shm
unfolding polls
polls-IsBounded zero o b = b
polls-IsBounded (suc n) o b = poll-IsBounded (polls n o) (polls-IsBounded n o b)

pub polls-Silent :
    (n : ℕ) (m : Module) (o : Observer)
    → IsWatched m
    → IsBounded o.shm
    → Silent (suc n) (counter m o.shm) (counter m (polls (suc n) o).shm)
unfolding polls
polls-Silent zero m o w b = poll-Silent 1 m _ o w (advance-Silent _ (counter-IsLow m o.shm b))
polls-Silent (suc n) m o w b =
    poll-Silent (suc (suc n)) m _ (polls (suc n) o) w
      (advance-Silent-suc n _ _ (counter-IsLow m o.shm b) (polls-Silent n m o w b))

abbrev IsOver : Shm → Module → Type 0
IsOver s m = (counter m s).thresh < (counter m s).value

error_in-IsOver : (s : Shm) → (error_in s ≡ true) ↔ Exists (IsOver s) watched
unfolding error_in counter
error_in-IsOver s = (ground arith, ground arith)

-- The health aggregator's status is an error exactly if a counter is over its threshold.
report-IsOver :
    (error prev : Bool) (s : Shm)
    → error ≡ error_in s
    → ((report error prev s).cnt_ha.modstatus ≡ error_detected)
      ↔ Exists (IsOver (report error prev s)) watched
unfolding report counter
report-IsOver true prev s h = (λ _. (error_in-IsOver s).0 (sym h), λ _. refl)
report-IsOver false prev s h = (λ e. absurd (cc e), λ x. absurd (cc (h, (error_in-IsOver s).1 x)))

poll-IsOver :
    (o : Observer)
    → ((poll o).shm.cnt_ha.modstatus ≡ error_detected) ↔ Exists (IsOver (poll o).shm) watched
unfolding poll
poll-IsOver o = report-IsOver _ o.error_prev (poll_counters o.shm) refl

-- A module that was monitored and has been silent for too many polls.
abbrev pub IsDead : ℕ → ShmVitalCounter → Type 0
IsDead n c =
    (c.activated ≡ true)
    × (c.thresh < min_uint (c.value + n * polling_interval_msec) shm_counter_max)

Silent-IsDead : (n : ℕ) (c d : ShmVitalCounter) → Silent n c d → (d.thresh < d.value) ↔ IsDead n c
Silent-IsDead n c d s =
    (ground (arith, s.activated, s.thresh, s.value), ground (arith, s.activated, s.thresh, s.value))

Exists-watched :
    (P Q : Module → Type 0)
    → ((m : Module) → IsWatched m → P m → Q m)
    → Exists P watched
    → Exists Q watched
Exists-watched P Q f = Exists-map P Q watched (
  f health_aggregator tt,
  (
    f emergency_handler tt,
    (f twist_gate tt, (f ymc_vehicle_driver tt, (f as_vehicle_driver tt, tt))),
  ),
)

-- After one or more polls with no call of a monitor between them, the status of the health aggregator
-- is an error if and only if a watched module is activated and its counter, ten milliseconds more
-- with each poll and held at SHM_COUNTER_MAX, is over its threshold.
pub polls-detects :
    (n : ℕ) (o : Observer)
    → IsBounded o.shm
    → ((polls (suc n) o).shm.cnt_ha.modstatus ≡ error_detected)
      ↔ Exists (λ m. IsDead (suc n) (counter m o.shm)) watched
polls-detects n o b = (
  λ e. Exists-watched over dead (λ m w. (each m w).0) (reported.0 e),
  λ x. reported.1 (Exists-watched dead over (λ m w. (each m w).1) x),
)
  where
    over : Module → Type 0
    over m = IsOver (polls (suc n) o).shm m

    dead : Module → Type 0
    dead m = IsDead (suc n) (counter m o.shm)

    reported : ((polls (suc n) o).shm.cnt_ha.modstatus ≡ error_detected) ↔ Exists over watched
    reported = unfold polls in poll-IsOver (polls n o)

    each : (m : Module) → IsWatched m → over m ↔ dead m
    each m w = Silent-IsDead (suc n) (counter m o.shm) _ (polls-Silent n m o w b)

dead-Exists : (P : Module → Type 0) (m : Module) → IsWatched m → P m → Exists P watched
dead-Exists P ros_observer w p = absurd w
dead-Exists P health_aggregator w p = inl p
dead-Exists P emergency_handler w p = inr (inl p)
dead-Exists P twist_gate w p = inr (inr (inl p))
dead-Exists P ymc_vehicle_driver w p = inr (inr (inr (inl p)))
dead-Exists P as_vehicle_driver w p = inr (inr (inr (inr (inl p))))

counter-put_counter :
    (m : Module) (c : ShmVitalCounter) (s : Shm) → counter m (put_counter m c s) ≡ c
unfolding counter put_counter
counter-put_counter ros_observer c s = refl
counter-put_counter _ c s = refl

-- What a module's first call writes to its counter.
client-counter :
    (m : ShmVitalMonitor) (o : Observer)
    → m.mode ≡ cnt_clear
    → m.is_opened ≡ false
    → counter m.mod_name (step o (client m)).shm
      ≡ init_counter cnt_clear m.polling_interval_msec (counter m.mod_name o.shm)
client-counter m o mode closed =
    unfold step in
    rw (mode, closed)
      (counter-put_counter m.mod_name
        (init_counter cnt_clear m.polling_interval_msec (counter m.mod_name o.shm)) o.shm)

-- A watched module that starts its monitor and then stops is reported: once the polls have lasted
-- longer than three of its intervals, whatever the other modules' counters hold, the status of the
-- health aggregator is an error. Three intervals have to be less than SHM_COUNTER_MAX.
pub deserted-error_detected :
    (n : ℕ) (m : ShmVitalMonitor) (o : Observer)
    → IsWatched m.mod_name
    → m.mode ≡ cnt_clear
    → m.is_opened ≡ false
    → m.polling_interval_msec * 3 < shm_counter_max
    → m.polling_interval_msec * 3 < suc n * polling_interval_msec
    → IsBounded o.shm
    → (polls (suc n) (step o (client m))).shm.cnt_ha.modstatus ≡ error_detected
deserted-error_detected n m o w mode closed small long b =
    (polls-detects n (step o (client m)) (step-IsBounded o (client m) b)).1 (
      dead-Exists (λ k. IsDead (suc n) (counter k (step o (client m)).shm)) m.mod_name w
        (rw (client-counter m o mode closed) (unfold init_counter in (refl, ground arith))))
