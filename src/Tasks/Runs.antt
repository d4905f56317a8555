-- ===== src/Tasks/Runs.antt =====
-- How the handlers' steps run: a rule for each way that a step can end.
use termlm.Base.{ℕ, true, false, List, ◌≡◌, ap, if_true, if_not}
use termlm.Daemon.{
  ChatMessage, DaemonState, done, failed, blocked, M, ◌>>=◌, lock, with_conversations,
}

module _ {A B : Type 0} (m : M A) (f : A → M B) (s : DaemonState) where
  pub bind-done : (a : A) (t : DaemonState) → m s ≡ done a t → (m >>= f) s ≡ f a t
  bind-done a t e =
      ap (λ r. elim r [ done a s' ↦ f a s' | failed s' ↦ failed s' | blocked ↦ blocked ]) e

  pub bind-blocked : m s ≡ blocked → (m >>= f) s ≡ blocked
  bind-blocked e =
      ap (λ r. elim r [ done a s' ↦ f a s' | failed s' ↦ failed s' | blocked ↦ blocked ]) e

pub lock-done :
    (s : DaemonState)
    → s.conversations_locked ≡ false
    → lock s ≡ done tt (record s { conversations_locked = true })
unfolding lock
lock-done s free = if_not s.conversations_locked _ _ free

pub lock-blocked : (s : DaemonState) → s.conversations_locked ≡ true → lock s ≡ blocked
unfolding lock
lock-blocked s held = if_true s.conversations_locked _ _ held

pub with_conversations-done :
    (f : List (ℕ × List ChatMessage) → List (ℕ × List ChatMessage)) (s : DaemonState)
    → s.conversations_locked ≡ false
    → with_conversations f s ≡ done tt (record s { task_conversations = f s.task_conversations })
unfolding with_conversations
with_conversations-done f s free = if_not s.conversations_locked _ _ free

pub with_conversations-blocked :
    (f : List (ℕ × List ChatMessage) → List (ℕ × List ChatMessage)) (s : DaemonState)
    → s.conversations_locked ≡ true
    → with_conversations f s ≡ blocked
unfolding with_conversations
with_conversations-blocked f s held = if_true s.conversations_locked _ _ held
