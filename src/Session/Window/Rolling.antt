-- ===== src/Session/Window/Rolling.antt =====
-- src/session.rs, `HashrateWindow`: what the window holds after each share.
use blitzpool_rental_proxy.Prelude.{
  ℕ, ◌-◌, ◌≤◌, ◌≡◌, refl, List, [], ◌∷◌, ◌++◌, arith, leb, if◌then◌else◌, ◌∙◌,
}
use blitzpool_rental_proxy.Session.Window.{HashrateWindow, prune, record_at}

module _ {W : Type 0} where
  -- The samples stand in the order of their times, from `lo` on and none after `hi`.
  abbrev pub Ordered : ℕ → ℕ → List (ℕ × W) → Type 0
  Ordered lo hi [] = lo ≤ hi
  Ordered lo hi ((t, d) ∷ samples) = (lo ≤ t) × Ordered t hi samples

  -- The samples that are at most `window` old, wherever they stand.
  abbrev pub recent : ℕ → ℕ → List (ℕ × W) → List (ℕ × W)
  recent window now [] = []
  recent window now ((t, d) ∷ samples) =
      if leb (now - t) window then (t, d) ∷ recent window now samples else recent window now samples

  Ordered-append :
      (lo hi now : ℕ) (d : W) (samples : List (ℕ × W))
      → Ordered lo hi samples
      → hi ≤ now
      → Ordered lo now (samples ++ (now, d) ∷ [])
  Ordered-append lo hi now d [] o h = omega arith
  Ordered-append lo hi now d ((t, e) ∷ samples) o h = (o.0, Ordered-append t hi now d samples o.1 h)

  -- Behind a sample that is recent stand only recent ones.
  recent-all :
      (window now lo hi : ℕ) (samples : List (ℕ × W))
      → Ordered lo hi samples
      → now - lo ≤ window
      → recent window now samples ≡ samples
  recent-all window now lo hi [] o h = refl
  recent-all window now lo hi ((t, d) ∷ samples) o h =
      ground (arith, recent-all window now t hi samples o.1)

  prune-eq-recent :
      (window now lo hi : ℕ) (samples : List (ℕ × W))
      → Ordered lo hi samples
      → prune window now samples ≡ recent window now samples
  unfolding prune
  prune-eq-recent window now lo hi [] o = refl
  prune-eq-recent window now lo hi ((t, d) ∷ samples) o =
      ground
        (arith, prune-eq-recent window now t hi samples o.1, recent-all window now t hi samples o.1)

  Ordered-recent :
      (window now lo hi : ℕ) (samples : List (ℕ × W))
      → Ordered lo hi samples
      → Ordered lo hi (recent window now samples)
  Ordered-recent window now lo hi [] o = o
  Ordered-recent window now lo hi ((t, d) ∷ samples) o = ground (
    arith,
    Ordered-recent window now t hi samples o.1,
    Ordered-weaken lo t hi (recent window now samples) o.0,
  )
    where
      Ordered-weaken : (lo t hi : ℕ) (s : List (ℕ × W)) → lo ≤ t → Ordered t hi s → Ordered lo hi s
      Ordered-weaken lo t hi [] h o = omega arith
      Ordered-weaken lo t hi ((u, d) ∷ s) h o = (omega arith, o.1)

  recent-append :
      (window now : ℕ) (d : W) (samples : List (ℕ × W))
      → recent window now (samples ++ (now, d) ∷ []) ≡ recent window now samples ++ (now, d) ∷ []
  recent-append window now d [] = ground arith
  recent-append window now d ((t, e) ∷ samples) = ground (arith, recent-append window now d samples)

  -- A share recorded at a time that is not before the last one leaves exactly the samples of the
  -- window: every earlier sample that is at most `window` old, in order, and the new one. The times
  -- stay in order up to the new one.
  pub record_at-eq-recent :
      (lo hi now : ℕ) (difficulty : W) (w : HashrateWindow W)
      → Ordered lo hi w.samples
      → hi ≤ now
      → ((record_at now difficulty w).samples
          ≡ recent w.window now w.samples ++ (now, difficulty) ∷ [])
        × Ordered lo now (record_at now difficulty w).samples
  unfolding record_at
  record_at-eq-recent lo hi now difficulty w o h =
      let o' = Ordered-append lo hi now difficulty w.samples o h in
      let e = prune-eq-recent w.window now lo now (w.samples ++ (now, difficulty) ∷ []) o' in
      (
        e ∙ recent-append w.window now difficulty w.samples,
        rw e (Ordered-recent w.window now lo now _ o'),
      )
