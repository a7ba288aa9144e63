-- ===== src/Json/Dumps/Order.antt =====
-- `json.dumps(…, sort_keys=True)` does not show the order in which a dict's keys were inserted.
use aidan_venture_os.Base.{◌≡◌, ◌≢◌, refl, ◌∙◌, List, [], ◌∷◌, arith}
use aidan_venture_os.Json.Text.{Text, text_le_total, text_le_antisymm, text_le_trans}
use aidan_venture_os.Json.Dumps.{
  Value, Items, Fields, obj, arr, nil, cons, end, field, Entry, insert_entry, sort_entries, dumps,
  dump_items, dump_fields,
}

-- Insertions of entries with different keys commute.
insert_entry_comm :
    (e f : Entry) (es : List Entry)
    → e.0 ≢ f.0
    → insert_entry e (insert_entry f es) ≡ insert_entry f (insert_entry e es)
unfolding insert_entry
insert_entry_comm e f [] h = ground (arith, text_le_total e.0 f.0, text_le_antisymm e.0 f.0)
insert_entry_comm e f (g ∷ gs) h = ground (
  arith,
  insert_entry_comm e f gs h,
  text_le_total e.0 f.0,
  text_le_antisymm e.0 f.0,
  text_le_total f.0 e.0,
  text_le_total e.0 g.0,
  text_le_total f.0 g.0,
  text_le_total g.0 f.0,
  text_le_total g.0 e.0,
  text_le_trans e.0 f.0 g.0,
  text_le_trans f.0 e.0 g.0,
  text_le_trans e.0 g.0 f.0,
  text_le_trans f.0 g.0 e.0,
)

-- Two JSON values that differ in the order of their dicts' keys, at any depth.
mutual
  pub data Same : Value → Value → Type 0 where
    same_refl : {v : Value} → Same v v
    same_trans : {u v w : Value} → Same u v → Same v w → Same u w
    same_arr : {xs ys : Items} → SameItems xs ys → Same (arr xs) (arr ys)
    same_obj : {fs gs : Fields} → SameFields fs gs → Same (obj fs) (obj gs)

  pub data SameItems : Items → Items → Type 0 where
    items_nil : SameItems nil nil
    items_cons :
        {v w : Value} {xs ys : Items}
        → Same v w
        → SameItems xs ys
        → SameItems (cons v xs) (cons w ys)

  pub data SameFields : Fields → Fields → Type 0 where
    fields_end : SameFields end end
    fields_field :
        {k : Text} {v w : Value} {fs gs : Fields}
        → Same v w
        → SameFields fs gs
        → SameFields (field k v fs) (field k w gs)
    fields_swap :
        {j k : Text} {v w : Value} {fs : Fields}
        → j ≢ k
        → SameFields (field j v (field k w fs)) (field k w (field j v fs))
    fields_trans : {fs gs hs : Fields} → SameFields fs gs → SameFields gs hs → SameFields fs hs

mutual
  unfolding dumps sort_entries

  dumps-Same : {v w : Value} → Same v w → dumps v ≡ dumps w
  dumps-Same same_refl = refl
  dumps-Same (same_trans p q) = dumps-Same p ∙ dumps-Same q
  dumps-Same (same_arr p) = rw (dump_items-Same p)
  dumps-Same (same_obj p) = rw (sort-Same p)

  dump_items-Same : {xs ys : Items} → SameItems xs ys → dump_items xs ≡ dump_items ys
  dump_items-Same items_nil = refl
  dump_items-Same (items_cons p q) = cc (dumps-Same p, dump_items-Same q)

  sort-Same :
      {fs gs : Fields}
      → SameFields fs gs
      → sort_entries (dump_fields fs) ≡ sort_entries (dump_fields gs)
  sort-Same fields_end = refl
  sort-Same (fields_field p q) = cc (dumps-Same p, sort-Same q)
  sort-Same (fields_swap {j} {k} {v} {w} {fs} h) =
      insert_entry_comm (j, dumps v) (k, dumps w) (sort_entries (dump_fields fs)) h
  sort-Same (fields_trans p q) = sort-Same p ∙ sort-Same q

-- the printed text is the same, for use outside the block
pub dumps-eq_of_Same : {v w : Value} → Same v w → dumps v ≡ dumps w
dumps-eq_of_Same p = dumps-Same p
