-- ===== src/Product/Loading.antt =====
-- What the console shows after loading, and after a record is created.
use go_platform_starter.Prelude.{Option, List, ◌≡◌, ◌⊎◌, inl, inr, refl, Text}
use go_platform_starter.Product.{
  Reply, done, failed, ProductRecord, Page, Loads, load_with, audit_items, loaded, load, load_with,
}

answered :
    (e : Option Text) (o : Reply Text) (rs : Reply (Option (List ProductRecord)))
    (audit : List Text) (a : Reply Text) (p : Page)
    → (load_with e o rs audit a p ≡ (p, failed e))
      ⊎ ((o' : Text) × (rs' : Option (List ProductRecord)) × (a' : Text) × (o ≡ done o')
          × (rs ≡ done rs')
          × (a ≡ done a')
          × (load_with e o rs audit a p ≡ (loaded o' rs' audit a' p, done tt)))
answered e (done o) (done rs) audit (done a) p = inr (o, rs, a, refl, refl, refl, refl)
answered e (failed _) rs audit a p = inl refl
answered e (done o) (failed _) audit a p = inl refl
answered e (done o) (done rs) audit (failed _) p = inl refl

-- Loading fails and leaves the page as it was, or fills in all four answers at once. A failing audit log does
-- not make it fail: it counts as empty.
load_lem :
    (r : Loads) (p : Page)
    → (load r p ≡ (p, failed r.first_error))
      ⊎ ((o : Text) × (rs : Option (List ProductRecord)) × (a : Text) × (r.overview ≡ done o)
          × (r.records ≡ done rs)
          × (r.analytics ≡ done a)
          × (load r p ≡ (loaded o rs (audit_items r.audit) a p, done tt)))
unfolding load
load_lem r p = answered r.first_error r.overview r.records (audit_items r.audit) r.analytics p
