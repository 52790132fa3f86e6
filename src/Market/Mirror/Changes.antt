-- ===== src/Market/Mirror/Changes.antt =====
-- The identifiers of the products of the two services, when a product is created, updated or
-- deleted.
use micro_market.Base.{
  ℕ, String, ◌≡◌, refl, sym, ap, subst, ◌∙◌, false, some, List, [], ◌∷◌, ◌++◌, map, eq_iff,
}
use micro_market.Common.AppError.{Error}
use micro_market.Common.Wire.{CheckoutClient}
use micro_market.Market.Links.{IsCheckoutClient}
use micro_market.Market.Products as Creating
use micro_market.Market.Products.Updating
use micro_market.Market.Products.Deleting
use micro_market.Market.Mirror.Sids.{
  is_in, Distinct, remove, remove-Distinct, append-Distinct, is_in-sids, find?-passes, find?-key,
  sids-keep, sids-change,
}
use micro_market.Inventory.Environment.{
  Environment as InventoryEnvironment, World as InventoryWorld,
}
use micro_market.Inventory.Contract.{Contract as InventoryContract}
use micro_market.Inventory.Model as InventoryModel
use micro_market.Inventory.Contract as InventoryContracts
use micro_market.Inventory.Products as Inventory
use micro_market.Checkout.Environment.{Environment as CheckoutEnvironment, World as CheckoutWorld}
use micro_market.Checkout.Contract.{Contract as CheckoutContract}
use micro_market.Checkout.Model as CheckoutModel
use micro_market.Checkout.Contract as CheckoutContracts

abbrev pub kept_id : InventoryModel.ProductModel → ℕ
kept_id p = p.id

abbrev pub kept_sid : InventoryModel.ProductModel → String
kept_sid p = p.sid

abbrev pub shown_id : CheckoutModel.ProductModel → ℕ
shown_id p = p.id

abbrev pub shown_sid : CheckoutModel.ProductModel → String
shown_sid p = p.sid

map-append :
    {A B : Type 0} (f : A → B) (xs : List A) (x : A) → map f (xs ++ x ∷ []) ≡ map f xs ++ f x ∷ []
map-append f [] x = refl
map-append f (y ∷ ys) x = ap (λ l. f y ∷ l) (map-append f ys x)

module _ {IDb IRng CDb CPeer Redis CRng : Type 0}
    (ie : InventoryEnvironment IDb (CheckoutWorld CDb CPeer Redis CRng) IRng)
    (ic : InventoryContract ie) (ce : CheckoutEnvironment CDb CPeer Redis CRng)
    (cc' : CheckoutContract ce) (text : Error → String)
    (linked : (client : CheckoutClient (CheckoutWorld CDb CPeer Redis CRng))
      → ie.client ≡ some client
      → IsCheckoutClient ce text client) where
  abbrev pub Worlds : Type 0
  Worlds = InventoryWorld IDb (CheckoutWorld CDb CPeer Redis CRng) IRng

  abbrev pub kept_sids : Worlds → List String
  kept_sids w = map kept_sid (ic.products w.db)

  abbrev pub shown_sids : Worlds → List String
  shown_sids w = map shown_sid (cc'.products w.checkout.db)

  -- The same identifiers, each once.
  pub record IsMirror (w : Worlds) : Type 0 where
    pub same : kept_sids w ≡ shown_sids w
    pub distinct : Distinct (kept_sids w)

  -- Changes of the one list that are made to the other.
  pub moved :
      (f : List String → List String) (w w' : Worlds)
      → ((ss : List String) → Distinct ss → ss ≡ kept_sids w → Distinct (f ss))
      → IsMirror w
      → kept_sids w' ≡ f (kept_sids w)
      → shown_sids w' ≡ f (shown_sids w)
      → IsMirror w'
  moved f w w' d m k s = record {
    same = k ∙ ap f m.same ∙ sym s;
    distinct = subst Distinct (sym k) (d (kept_sids w) m.distinct refl);
  }

  pub created-IsMirror :
      (w w' : Worlds)
      → Creating.CreatedInBoth ie ic ce cc' text linked w w'
      → IsMirror w
      → IsMirror w'
  created-IsMirror w w' b m =
      let new = is_in-sids kept_id kept_sid b.kept.sid (ic.products w.db) b.new_sid in
      moved (λ ss. ss ++ b.kept.sid ∷ []) w w'
        (λ ss d e.
          append-Distinct b.kept.sid ss d (subst (λ l. is_in b.kept.sid l ≡ false) (sym e) new))
        m (ap (map kept_sid) b.in_inventory ∙ map-append kept_sid (ic.products w.db) b.kept)
        (ap (map shown_sid) b.in_checkout
          ∙ map-append shown_sid (cc'.products w.checkout.db) b.shown
          ∙ ap (λ s. shown_sids w ++ s ∷ []) b.same_sid)

  pub updated-IsMirror :
      (id : ℕ) (req : Inventory.ProductRequest) (w w' : Worlds)
      → Updating.UpdatedInBoth ie ic ce cc' text linked id req w w'
      → IsMirror w
      → IsMirror w'
  unfolding Inventory.updated_product
  updated-IsMirror id req w w' b m =
      moved (λ ss. ss) w w' (λ ss d e. d) m
        (ap (map kept_sid) b.in_inventory
          ∙ sids-change kept_id kept_sid id
              (InventoryContracts.saved (Inventory.updated_product req b.kept) b.kept_at) b.kept
              (ic.products w.db) (ic.unique_ids w.db) b.kept_found refl)
        (ap (map shown_sid) b.in_checkout
          ∙ sids-change shown_id shown_sid b.shown.id (CheckoutContracts.saved b.row b.shown_at)
              b.shown (cc'.products w.checkout.db) (cc'.unique_ids w.checkout.db)
              (find?-key shown_id shown_sid (CheckoutContracts.has_sid b.kept.sid) b.shown
                (cc'.products w.checkout.db) (cc'.unique_ids w.checkout.db) b.shown_found)
              b.same_sid)

  pub deleted-IsMirror :
      (id : ℕ) (w w' : Worlds)
      → Deleting.DeletedInBoth ie ic ce cc' text linked id w w'
      → IsMirror w
      → IsMirror w'
  deleted-IsMirror id w w' b m =
      let found =
        find?-passes shown_id shown_sid (CheckoutContracts.has_sid b.kept.sid) b.shown
          (cc'.products w.checkout.db) b.shown_found in
      let same_sid : b.shown.sid ≡ b.kept.sid = (eq_iff b.shown.sid b.kept.sid).0 found in
      moved (remove b.kept.sid) w w' (λ ss d e. remove-Distinct b.kept.sid ss d) m
        (ap (map kept_sid) b.in_inventory
          ∙ sids-keep kept_id kept_sid id b.kept (ic.products w.db) (ic.unique_ids w.db) m.distinct
              b.kept_found)
        (ap (map shown_sid) b.in_checkout
          ∙ sids-keep shown_id shown_sid b.shown.id b.shown (cc'.products w.checkout.db)
              (cc'.unique_ids w.checkout.db) (subst Distinct m.same m.distinct)
              (find?-key shown_id shown_sid (CheckoutContracts.has_sid b.kept.sid) b.shown
                (cc'.products w.checkout.db) (cc'.unique_ids w.checkout.db) b.shown_found)
          ∙ ap (λ s. remove s (shown_sids w)) same_sid)
