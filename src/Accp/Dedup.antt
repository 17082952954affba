-- ===== src/Accp/Dedup.antt =====
-- src/accp/envelope.ts: MessageDedupIndex, the bounded index of the message ids that were seen.
pub mod Bounded
use agent_control_center_cor.Base.{
  ℕ, suc, String, Bool, true, false, ltb, eqb, List, [], ◌∷◌, ◌++◌, Result, ok, err, any, ◌==◌,
  length, if◌then◌else◌,
}

-- `#seen` is a JavaScript Set: its values in the order of their insertion.
pub record DedupIndex : Type 0 where
  pub seen : List String
  pub capacity : ℕ

pub data RangeError : Type 0 where
  bad_capacity inverted_range : RangeError

-- `new MessageDedupIndex(capacity)` on an integer
unfoldable pub new_index : ℕ → Result RangeError DedupIndex
new_index capacity =
    if eqb capacity 0 then err bad_capacity else ok (record { seen = []; capacity = capacity })

abbrev pub has_seen : String → List String → Bool
has_seen id seen = any (λ other. other == id) seen

-- `this.#seen.delete(oldest)`
abbrev pub without_oldest : List String → List String
without_oldest [] = []
without_oldest (oldest ∷ rest) = rest

-- `check(messageId)`
unfoldable pub check_message : String → DedupIndex → Bool × DedupIndex
check_message id index =
    if has_seen id index.seen
    then (true, index)
    else let seen = index.seen ++ id ∷ [] in
      (
        false,
        record index {
          seen = if ltb index.capacity (length seen) then without_oldest seen else seen;
        },
      )
