-- ===== src/ApiKeys/Screen/Rows.antt =====
-- What the table of the keys offers to click.
use ops_sys.Base.{Bool, true, ◌≡◌, refl, ◌&&◌, not, List, [], ◌∷◌, any, All, arith, inr}
use ops_sys.Base.Text.{Text, codes, text_eq, text_eq_refl}
use ops_sys.Fleet.{ApiKey}
use ops_sys.Markup.{tag, when, offered}
use ops_sys.Markup.Clicks.{Offers, tag-All, when-All, button-All}
use ops_sys.ApiKeys.{is_set, Row, row}
use ops_sys.ApiKeys.Pending.{Live, begin_revoke, asks_revoke, after}
use ops_sys.ApiKeys.Screen.Does.{IsActive, Does}
use ops_sys.ApiKeys.Screen.{Fields, revoke_button, row_cells, row_nodes, table_parts, table_node}
use ops_sys.ApiKeys.Screen.Guide.{Act, runs, GuideState}

module _ (date : Text → Text) (confirm : Text → Bool) (g : GuideState) (f : Fields) (s : Live) where
  abbrev D : Act → Type 0
  D = Does confirm g f s

  cells-All :
      (r : Row)
      → (r.can_revoke ≡ true → D (runs (begin_revoke (confirm r.key.id) r.key.id)))
      → All (Offers D) (row_cells date confirm r)
  unfolding offered
  cells-All r h =
      let cell = when-All D r.can_revoke (revoke_button confirm r.key.id) (λ e.
        button-All D (runs (begin_revoke (confirm r.key.id) r.key.id)) (codes "Revoke") (h e)) in
      let actions =
        tag-All D (codes "td") (when r.can_revoke (revoke_button confirm r.key.id)) cell in
      (tt, (tt, (tt, (tt, (tt, (tt, (actions, tt)))))))

  rows-All :
      (ks : List ApiKey)
      → ((id : Text)
          → any (λ k. text_eq id k.id && not (is_set k.revoked_at)) ks ≡ true
          → IsActive s id)
      → All (Offers D) (row_nodes date confirm ks)
  unfolding row_nodes row after
  rows-All [] h = tt
  rows-All (k ∷ ks) h = (
    tag-All D (codes "tr") (row_cells date confirm (row k)) (
        cells-All (row k) (λ e. inr (
          asks_revoke (confirm k.id) k.id,
          (refl, h k.id (ground (arith, text_eq_refl k.id))),
          refl,
        ))),
    rows-All ks (λ id e. h id (ground arith)),
  )

  pub table-Offers : Offers D (table_node date confirm s.page.keys)
  unfolding offered
  table-Offers =
      let ks = s.page.keys in
      tag-All D (codes "div") (tag (codes "table") (table_parts date confirm ks) ∷ []) (
        tag-All D (codes "table") (table_parts date confirm ks) (
          tt,
          (tag-All D (codes "tbody") (row_nodes date confirm ks) (rows-All ks (λ id e. e)), tt),
        ),
        tt,
      )
