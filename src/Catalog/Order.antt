-- ===== src/Catalog/Order.antt =====
-- Go iterates over a map in an unspecified order. Here the order is that of the table's list, and
-- nothing that a caller of `Replace` can see depends on it.
use go_relay.Base.{◌≡◌, sym, ap, ◌∙◌, Bool, true, false, List, Text, IsTable, arith}
use go_relay.Config.Bundle.{Bundle}
use go_relay.Catalog.{Catalog, replace, find}
use go_relay.Catalog.Replace.{resolve, find-replace}
use go_relay.Catalog.Changes.{version_of, replace_clean_iff}

both_false : (a b : Bool) → (a ≡ false → b ≡ false) → (b ≡ false → a ≡ false) → a ≡ b
both_false true true f g = ground arith
both_false true false f g = g (ground arith)
both_false false true f g = cc (f (ground arith))
both_false false false f g = ground arith

-- Two catalogs that hold the same bundles, each name once and in whatever orders, hold the same bundles after the same
-- snapshot, and `Replace` reports the same.
pub replace_order :
    (c c' : Catalog) (snapshot : List Bundle)
    → IsTable c.bundles
    → IsTable c'.bundles
    → ((k : Text) → find c k ≡ find c' k)
    → ((k : Text) → find (replace c snapshot).0 k ≡ find (replace c' snapshot).0 k)
      × ((replace c snapshot).1 ≡ (replace c' snapshot).1)
replace_order c c' snapshot t t' same = (
  λ k.
      find-replace c snapshot t k
      ∙ ap (resolve snapshot k) (same k)
      ∙ sym (find-replace c' snapshot t' k),
  both_false _ _
      (λ h.
        (replace_clean_iff c' snapshot t').1
          λ k. ap version_of (sym (same k)) ∙ (replace_clean_iff c snapshot t).0 h k)
      (λ h.
        (replace_clean_iff c snapshot t).1
          λ k. ap version_of (same k) ∙ (replace_clean_iff c' snapshot t').0 h k),
)
