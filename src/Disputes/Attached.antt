-- ===== src/Disputes/Attached.antt =====
-- What the evidence of a dispute adds to the database.
use adehun_api.Prelude.{
  ℕ, suc, ◌+◌, ◌≡◌, refl, ap, ◌∙◌, Bool, false, List, [], ◌∷◌, Option, none, select_all, length,
  ==_refl,
}
use adehun_api.Models.{Asset}
use adehun_api.Session.{Session, ok, ◌>>=◌}
use adehun_api.Assets.{Upload, new_file, add_asset, is_under}
use adehun_api.Assets.HandIn.{handed_in, onto}
use adehun_api.Disputes.{evidence, attach}

abbrev pub under_dispute : ℕ → List Asset → List Asset
under_dispute d xs = select_all (λ x. is_under d x.dispute_id) xs

-- The rows were added, newest first, under no condition, and nothing else changed.
pub record IsAttached (d p : ℕ) (files : List Upload) (s : Session) : Type 0 where
  pub ids : List ℕ
  pub next : ℕ
  pub assets : List Asset
  pub done :
      attach d p files s
      ≡ (ok ids, record s { working = record s.working { assets = assets }; next_id = next })
  pub counted : length ids ≡ length files
  pub listed :
      handed_in (under_dispute d assets) ≡ onto files (handed_in (under_dispute d s.working.assets))
  pub apart :
      (g : Option ℕ → Bool)
      → g none ≡ false
      → select_all (λ x. g x.condition_id) assets
        ≡ select_all (λ x. g x.condition_id) s.working.assets

pub attach-IsAttached : (d p : ℕ) (files : List Upload) (s : Session) → IsAttached d p files s
unfolding attach add_asset ◌>>=◌
attach-IsAttached d p [] s = record {
  ids = [];
  next = s.next_id;
  assets = s.working.assets;
  done = refl;
  counted = refl;
  listed = refl;
  apart = λ g h. refl;
}
attach-IsAttached d p (f ∷ fs) s =
    let h = attach-IsAttached d p fs after in
    record {
      ids = (s.next_id + 1) ∷ h.ids;
      next = h.next;
      assets = h.assets;
      done = rw h.done refl;
      counted = ap (λ n. suc n) h.counted;
      listed = h.listed ∙ ap (λ xs. onto fs (handed_in xs)) front;
      apart = λ g other. h.apart g other ∙ rw other refl;
    }
  where
    row : Asset
    row = evidence (s.next_id + 1) d p (new_file s.next_id f)

    after : Session
    after = record s { working = add_asset row s.working; next_id = s.next_id + 1 + 1 }

    front : under_dispute d (row ∷ s.working.assets) ≡ row ∷ under_dispute d s.working.assets
    front = rw (==_refl d) refl
