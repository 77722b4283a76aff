-- ===== src/Core/Freelist.antt =====
-- crates/forge-alloc-core/src/traits/freelist_protection.rs: the integrity policy of the free lists.
-- `verify` is `true` for `Ok(())`. The nonce is what the caller passes as `slot_addr`.
use forge_alloc.Base.{ℕ, ◌%◌, ◌^◌, ◌≡◌, refl, Bool, true, ◌==◌, ==_iff}

pub record FreelistProtection (M : Type 0) : Type 0 where
  pub sign : M → ℕ → ℕ → ℕ
  pub verify : M → ℕ → ℕ → ℕ → Bool

-- A link verifies with the tag that `sign` made for it: the contract that `sign` is deterministic.
abbrev pub Accepts : {M : Type 0} → FreelistProtection M → M → Type 0
Accepts p m = (next_idx nonce : ℕ) → p.verify m next_idx (p.sign m next_idx nonce) nonce ≡ true

pub data NoProtection : Type 0 where
  no_protection : NoProtection

abbrev pub unprotected : FreelistProtection NoProtection
unprotected = record { sign = λ m next_idx nonce. 0; verify = λ m next_idx stored nonce. true }

-- SipHash-1-3 under a key, from the `siphasher` crate, is the parameter `finish`; the tag is its low
-- half, and `verify` compares the whole tag.
module _ {K : Type 0} (finish : K → ℕ → ℕ → ℕ) where
  unfoldable pub mac : K → ℕ → ℕ → ℕ
  mac key next_idx nonce = finish key next_idx nonce % 2 ^ 32

  unfoldable pub sip_hash_mac : FreelistProtection K
  unfolding mac
  sip_hash_mac = record {
    sign = λ key next_idx nonce. mac key next_idx nonce;
    verify = λ key next_idx stored nonce. mac key next_idx nonce == stored;
  }

  pub sip_hash_mac-Accepts : (key : K) → Accepts sip_hash_mac key
  unfolding sip_hash_mac
  sip_hash_mac-Accepts key next_idx nonce =
      (==_iff (mac key next_idx nonce) (mac key next_idx nonce)).1 refl
