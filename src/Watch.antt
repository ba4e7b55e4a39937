-- ===== src/Watch.antt =====
-- What the program uses of `tokio::sync::watch`, as an interface: channels are numbered, and
-- `changed` on a receiver fails once the channel's sender is dropped. Nothing is ever sent.
pub mod Opened
use shadowstep.Prelude.{ℕ, ◌≡◌, Bool, true, false, ◌||◌, ◌==◌, if◌then◌else◌}

pub record Watch : Type 1 where
  pub Channels : Type 0
  pub none_open : Channels
  -- `watch::channel(())`
  pub channel : Channels → ℕ × Channels
  pub drop_sender : Channels → ℕ → Channels
  pub closed : Channels → ℕ → Bool
  -- whether the channel was ever made
  pub made : Channels → ℕ → Bool
  pub made-none_open : (id : ℕ) → made none_open id ≡ false
  pub made-channel_new : (c : Channels) → made c (channel c).0 ≡ false
  pub made-channel :
      (c : Channels) (id : ℕ)
      → made (channel c).1 id ≡ (if (channel c).0 == id then true else made c id)
  pub made-drop_sender : (c : Channels) (j id : ℕ) → made (drop_sender c j) id ≡ made c id
  pub closed-channel :
      (c : Channels) (id : ℕ)
      → closed (channel c).1 id ≡ (if (channel c).0 == id then false else closed c id)
  pub closed-drop_sender :
      (c : Channels) (j id : ℕ)
      → closed (drop_sender c j) id ≡ (if j == id then true else closed c id)
