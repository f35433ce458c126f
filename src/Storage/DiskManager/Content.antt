-- ===== src/Storage/DiskManager/Content.antt =====
-- A file's bytes: what `seekg` and `read`, `seekp` and `write` of src/storage/DiskManager.cpp do.
use my_db.Base.{
  ℕ, zero, suc, ◌+◌, ◌≤◌, ◌<◌, ◌≡◌, refl, ap, ◌⊎◌, [], ◌∷◌, arith, nat_eq, length, if◌then◌else◌,
}
use my_db.Base.Bytes.{Bytes}

-- The byte at a position, zero beyond the end.
unfoldable pub byte_at : Bytes → ℕ → ℕ
byte_at [] i = 0
byte_at (b ∷ bs) zero = b
byte_at (b ∷ bs) (suc i) = byte_at bs i

-- One byte is written; a gap before it is filled with zeros.
unfoldable pub put_byte : ℕ → ℕ → Bytes → Bytes
put_byte zero v [] = v ∷ []
put_byte zero v (b ∷ bs) = v ∷ bs
put_byte (suc i) v [] = 0 ∷ put_byte i v []
put_byte (suc i) v (b ∷ bs) = b ∷ put_byte i v bs

-- The `n` bytes from `offset` on.
unfoldable pub window : ℕ → ℕ → Bytes → Bytes
window offset zero file = []
window offset (suc n) file = byte_at file offset ∷ window (suc offset) n file

unfoldable pub write_at : ℕ → Bytes → Bytes → Bytes
write_at offset [] file = file
write_at offset (b ∷ bs) file = write_at (suc offset) bs (put_byte offset b file)

byte_at-put_byte :
    (i j v : ℕ) (file : Bytes)
    → byte_at (put_byte i v file) j ≡ (if nat_eq i j then v else byte_at file j)
unfolding byte_at put_byte
byte_at-put_byte zero zero v [] = refl
byte_at-put_byte zero zero v (b ∷ bs) = refl
byte_at-put_byte zero (suc j) v [] = ground arith
byte_at-put_byte zero (suc j) v (b ∷ bs) = ground arith
byte_at-put_byte (suc i) zero v [] = ground arith
byte_at-put_byte (suc i) zero v (b ∷ bs) = ground arith
byte_at-put_byte (suc i) (suc j) v [] = ground (arith, byte_at-put_byte i j v [])
byte_at-put_byte (suc i) (suc j) v (b ∷ bs) = ground (arith, byte_at-put_byte i j v bs)

byte_at-write_before :
    (offset i : ℕ) (bs file : Bytes)
    → i < offset
    → byte_at (write_at offset bs file) i ≡ byte_at file i
unfolding write_at
byte_at-write_before offset i [] file h = refl
byte_at-write_before offset i (b ∷ bs) file h = ground (
  arith,
  byte_at-write_before (suc offset) i bs (put_byte offset b file),
  byte_at-put_byte offset i b file,
)

byte_at-write_after :
    (offset i : ℕ) (bs file : Bytes)
    → offset + length bs ≤ i
    → byte_at (write_at offset bs file) i ≡ byte_at file i
unfolding write_at
byte_at-write_after offset i [] file h = refl
byte_at-write_after offset i (b ∷ bs) file h = ground (
  arith,
  byte_at-write_after (suc offset) i bs (put_byte offset b file),
  byte_at-put_byte offset i b file,
)

pub length-window : (offset n : ℕ) (file : Bytes) → length (window offset n file) ≡ n
unfolding window
length-window offset zero file = refl
length-window offset (suc n) file = ap suc (length-window (suc offset) n file)

-- What was written is read.
pub window-write_at_self :
    (offset n : ℕ) (bs file : Bytes)
    → length bs ≡ n
    → window offset n (write_at offset bs file) ≡ bs
unfolding window write_at
window-write_at_self offset zero [] file h = refl
window-write_at_self offset zero (b ∷ bs) file h = absurd (omega arith)
window-write_at_self offset (suc n) [] file h = absurd (omega arith)
window-write_at_self offset (suc n) (b ∷ bs) file h = ground (
  arith,
  window-write_at_self (suc offset) n bs (put_byte offset b file),
  byte_at-write_before (suc offset) offset bs (put_byte offset b file),
  byte_at-put_byte offset offset b file,
)

-- A window beside the bytes written.
pub window-write_at_apart :
    (offset n start : ℕ) (bs file : Bytes)
    → (start + n ≤ offset) ⊎ (offset + length bs ≤ start)
    → window start n (write_at offset bs file) ≡ window start n file
unfolding window
window-write_at_apart offset zero start bs file h = refl
window-write_at_apart offset (suc n) start bs file h = ground (
  arith,
  byte_at-write_before offset start bs file,
  byte_at-write_after offset start bs file,
  window-write_at_apart offset n (suc start) bs file,
)
