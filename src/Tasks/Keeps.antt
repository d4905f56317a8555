-- ===== src/Tasks/Keeps.antt =====
-- Invariants of the handlers' steps: what holds before a step holds in the state that it leaves,
-- also where it fails. A rule for each way to build a step.
use termlm.Base.{
  ℕ, Bool, true, false, List, [], ◌∷◌, Option, none, some, ◌≡◌, refl, arith, ◌==◌, All,
  if◌then◌else◌, Bool-cases, inl, inr,
}
use termlm.Base.Maps.{remove, modify}
use termlm.Daemon.{
  InFlightTask, ServerMessage, ChatMessage, DaemonState, Reply, done, failed, blocked, M, ◌>>=◌,
  send, with_conversations,
}

-- `P` holds of the state that is left.
abbrev pub Leaves : {A : Type 0} → (DaemonState → Type 0) → Reply A → Type 0
Leaves P (done _ s) = P s
Leaves P (failed s) = P s
Leaves P blocked = Unit

abbrev pub Keeps : {A : Type 0} → (DaemonState → Type 0) → M A → Type 0
Keeps P m = (s : DaemonState) → P s → Leaves P (m s)

-- `P` holds of the tasks of the state.
abbrev pub TasksAll : (InFlightTask → Type 0) → DaemonState → Type 0
TasksAll Q s = All (λ (kv : ℕ × InFlightTask). Q kv.1) s.tasks

module _ (P : DaemonState → Type 0) where
  pub Keeps-bind :
      {A B : Type 0} (m : M A) (f : A → M B)
      → Keeps P m
      → ((a : A) → Keeps P (f a))
      → Keeps P (m >>= f)
  Keeps-bind m f km kf s h = after (m s) f kf (km s h)
    where
      after :
          {A B : Type 0} (r : Reply A) (f : A → M B)
          → ((a : A) → Keeps P (f a))
          → Leaves P r
          → Leaves P (elim r [ done a t ↦ f a t | failed t ↦ failed t | blocked ↦ blocked ])
      after (done a t) f kf k = kf a t k
      after (failed t) f kf k = k
      after blocked f kf k = tt

  pub Leaves-if :
      {A : Type 0} (b : Bool) (x y : Reply A)
      → Leaves P x
      → Leaves P y
      → Leaves P (if b then x else y)
  Leaves-if true x y h k = h
  Leaves-if false x y h k = k

  pub Keeps-if :
      {A : Type 0} (b : Bool) (m n : M A) → Keeps P m → Keeps P n → Keeps P (if b then m else n)
  Keeps-if true m n km kn = km
  Keeps-if false m n km kn = kn

  pub Leaves-option :
      {A B : Type 0} (o : Option A) (x : Reply B) (f : A → Reply B)
      → Leaves P x
      → ((a : A) → Leaves P (f a))
      → Leaves P (elim o [ none ↦ x | some a ↦ f a ])
  Leaves-option none x f h k = h
  Leaves-option (some a) x f h k = k a

module _ (Q : InFlightTask → Type 0) where
  pub All-remove :
      (k : ℕ) (m : List (ℕ × InFlightTask))
      → All (λ (kv : ℕ × InFlightTask). Q kv.1) m
      → All (λ (kv : ℕ × InFlightTask). Q kv.1) (remove k m)
  unfolding remove
  All-remove k [] h = tt
  All-remove k ((j, t) ∷ m) h = elim (Bool-cases (j == k)) [
    | inl e ↦ rw e (All-remove k m h.1)
    | inr e ↦ rw e (h.0, All-remove k m h.1)
  ]

  pub All-modify :
      (k : ℕ) (f : InFlightTask → InFlightTask) (m : List (ℕ × InFlightTask))
      → ((t : InFlightTask) → Q t → Q (f t))
      → All (λ (kv : ℕ × InFlightTask). Q kv.1) m
      → All (λ (kv : ℕ × InFlightTask). Q kv.1) (modify k f m)
  unfolding modify
  All-modify k f [] g h = tt
  All-modify k f ((j, t) ∷ m) g h = elim (Bool-cases (j == k)) [
    | inl e ↦ rw e (g t h.0, All-modify k f m g h.1)
    | inr e ↦ rw e (h.0, All-modify k f m g h.1)
  ]

-- The steps that change no task keep every property of the tasks and the configuration.
module _ (P : DaemonState → Type 0)
    (framed : (s t : DaemonState) → t.tasks ≡ s.tasks → t.config ≡ s.config → P s → P t) where
  pub Keeps-send : (message : ServerMessage) → Keeps P (send message)
  unfolding send
  Keeps-send message s h = elim (Bool-cases (s.sends_left == 0)) [
    | inl e ↦ rw e h
    | inr e ↦ rw e (framed s _ refl refl h)
  ]

module _ (P : DaemonState → Type 0)
    (framed : (s t : DaemonState)
      → t.tasks ≡ s.tasks
      → t.config ≡ s.config
      → t.outbox ≡ s.outbox
      → P s
      → P t) where
  pub Keeps-with_conversations :
      (f : List (ℕ × List ChatMessage) → List (ℕ × List ChatMessage))
      → Keeps P (with_conversations f)
  unfolding with_conversations
  Keeps-with_conversations f s h = elim (Bool-cases s.conversations_locked) [
    | inl e ↦ leaves_if _ _ _ e tt
    | inr e ↦ leaves_if_not _ _ _ e (framed s _ refl refl refl h)
  ]
    where
      leaves_if :
          {A : Type 0} (b : Bool) (x y : Reply A)
          → b ≡ true
          → Leaves P x
          → Leaves P (if b then x else y)
      leaves_if true x y e k = k
      leaves_if false x y e k = absurd (ground arith)

      leaves_if_not :
          {A : Type 0} (b : Bool) (x y : Reply A)
          → b ≡ false
          → Leaves P y
          → Leaves P (if b then x else y)
      leaves_if_not true x y e k = absurd (ground arith)
      leaves_if_not false x y e k = k
