-- ===== src/Common/Rid.antt =====
-- src/common/rid.h: a row's page and its slot there.
use my_db.Base.{ℕ, ◌≡◌, ◌↔◌, Bool, true, not, ◌&&◌, arith, nat_eq, ltb, if◌then◌else◌, Eq}

pub record Rid : Type 0 where
  pub page_id : ℕ
  pub slot_num : ℕ

abbrev pub rid_eq : Rid → Rid → Bool
rid_eq a b = nat_eq a.page_id b.page_id && nat_eq a.slot_num b.slot_num

pub rid_eq_iff : (a b : Rid) → (rid_eq a b ≡ true) ↔ (a ≡ b)
rid_eq_iff a b = ground arith

instance abbrev pub rid_Eq : Eq Rid
rid_Eq = record { equal = rid_eq; equal_iff = rid_eq_iff }

-- `operator<`: by page, then by slot.
unfoldable pub rid_lt : Rid → Rid → Bool
rid_lt a b =
    if not (nat_eq a.page_id b.page_id) then ltb a.page_id b.page_id else ltb a.slot_num b.slot_num
