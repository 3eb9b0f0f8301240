-- ===== src/Frame/Flags.antt =====
-- httpbis/src/solicit/frame/flags.rs: the flag byte of a frame, typed by the flags of its frame.
use rust_http.Prelude.{ℕ, ◌-◌, Bool, List, bit_and, bit_or, ◌!=◌}

-- The trait `Flag`.
pub record Flag (F : Type 0) : Type 0 where
  pub bitmask : F → ℕ
  pub flags : List F

-- `Flags<F>(u8, PhantomData<F>)`
pub record Flags (F : Type 0) : Type 0 where
  pub bits : ℕ

-- A frame that defines no flags.
pub data NoFlag : Type 0 where

module _ {F : Type 0} where
  abbrev pub new : ℕ → Flags F
  new value = record { bits = value }

  -- `Flags::default()`
  abbrev pub default : Flags F
  default = new 0

module _ {F : Type 0} ⦃f : Flag F⦄ where
  abbrev pub to_flags : F → Flags F
  to_flags flag = new (f.bitmask flag)

  unfoldable pub is_set : Flags F → F → Bool
  is_set flags flag = bit_and flags.bits (f.bitmask flag) != 0

  -- `set`, and `with`, which sets in a copy.
  abbrev pub with : Flags F → F → Flags F
  with flags flag = record { bits = bit_or flags.bits (f.bitmask flag) }

  -- `clear`, and `without`: `!` complements a byte.
  abbrev without : Flags F → F → Flags F
  without flags flag = record { bits = bit_and flags.bits (255 - f.bitmask flag) }
