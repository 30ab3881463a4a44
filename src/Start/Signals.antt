-- ===== src/Start/Signals.antt =====
-- main.cpp: the signal handlers and the loop of sigIntThread, which looks at their flags every
-- second. The signals of a round are those that arrive while the thread sleeps.
use poolfrontend.Prelude.{
  ℕ, ◌+◌, Bool, true, false, ◌||◌, ◌≡◌, refl, ap, ◌∙◌, List, [], ◌∷◌, if◌then◌else◌,
}

-- interrupted and sigusrReceived
pub record Flags : Type 0 where
  pub interrupted : Bool
  pub sigusr_received : Bool

-- SIGINT and SIGTERM have one handler, SIGUSR1 another.
pub data Signal : Type 0 where
  interrupt user : Signal

unfoldable pub handle : Flags → Signal → Flags
handle flags interrupt = record flags { interrupted = true }
handle flags user = record flags { sigusr_received = true }

unfoldable pub handle_all : Flags → List Signal → Flags
unfolding handle
handle_all flags [] = flags
handle_all flags (signal ∷ signals) = handle_all (handle flags signal) signals

-- The loop with the number of profiles dumped: it has ended, or goes on behind the rounds given.
pub data Watch : Type 0 where
  ended waiting : ℕ → Watch

abbrev dumped : Flags → ℕ
dumped flags = if flags.sigusr_received then 1 else 0

unfoldable pub watch : Flags → ℕ → List (List Signal) → Watch
unfolding handle_all
watch flags dumps [] = if flags.interrupted then ended dumps else waiting (dumps + dumped flags)
watch flags dumps (signals ∷ rounds) =
    let later =
      watch (handle_all (record flags { sigusr_received = false }) signals) (dumps + dumped flags)
        rounds in
    if flags.interrupted then ended dumps else later

abbrev pub is_ended : Watch → Bool
is_ended (ended dumps) = true
is_ended (waiting dumps) = false

abbrev pub has_interrupt : List Signal → Bool
has_interrupt [] = false
has_interrupt (interrupt ∷ signals) = true
has_interrupt (user ∷ signals) = has_interrupt signals

abbrev pub any_interrupt : List (List Signal) → Bool
any_interrupt [] = false
any_interrupt (signals ∷ rounds) = has_interrupt signals || any_interrupt rounds

interrupted_stays :
    (flags : Flags) (signals : List Signal)
    → flags.interrupted ≡ true
    → (handle_all flags signals).interrupted ≡ true
unfolding handle_all
interrupted_stays flags [] h = h
interrupted_stays flags (interrupt ∷ signals) h =
    interrupted_stays (record flags { interrupted = true }) signals refl
interrupted_stays flags (user ∷ signals) h =
    interrupted_stays (record flags { sigusr_received = true }) signals h

handle_all-interrupted :
    (flags : Flags) (signals : List Signal)
    → flags.interrupted ≡ false
    → (handle_all flags signals).interrupted ≡ has_interrupt signals
unfolding handle_all
handle_all-interrupted flags [] h = h
handle_all-interrupted flags (interrupt ∷ signals) h =
    interrupted_stays (record flags { interrupted = true }) signals refl
handle_all-interrupted flags (user ∷ signals) h =
    handle_all-interrupted (record flags { sigusr_received = true }) signals h

watch-or :
    (flags : Flags) (dumps : ℕ) (rounds : List (List Signal)) (b : Bool)
    → flags.interrupted ≡ b
    → is_ended (watch flags dumps rounds) ≡ (b || any_interrupt rounds)
unfolding watch
watch-or flags dumps [] true h = rw h refl
watch-or flags dumps [] false h = rw h refl
watch-or flags dumps (signals ∷ rounds) true h = rw h refl
watch-or flags dumps (signals ∷ rounds) false h =
    let handled = handle_all (record flags { sigusr_received = false }) signals in
    ap (λ b. is_ended (if b then ended dumps else watch handled (dumps + dumped flags) rounds)) h
    ∙ watch-or handled (dumps + dumped flags) rounds (has_interrupt signals)
        (handle_all-interrupted (record flags { sigusr_received = false }) signals h)

-- Whatever signals come, the loop that has seen none ends just when an interrupt is among them.
pub watch-any_interrupt :
    (dumps : ℕ) (rounds : List (List Signal))
    → is_ended (watch (record { interrupted = false; sigusr_received = false }) dumps rounds)
      ≡ any_interrupt rounds
watch-any_interrupt dumps rounds =
    watch-or (record { interrupted = false; sigusr_received = false }) dumps rounds false refl
