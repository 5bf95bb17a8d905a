-- ===== src/Structural/Fat/Chains.antt =====
-- `_fat_chain` of src/avbox/analyzers/structural.py: it ends, and without a finding it has read a chain
-- of the FAT to its end.
use avbox.Prelude.{
  ℕ, zero, suc, ◌+◌, ◌≤◌, ◌<◌, ◌≡◌, refl, sym, ap, ◌∙◌, ◌⊎◌, inl, inr, false, ◌||◌, Option, none,
  some, List, [], ◌∷◌, ◌++◌, arith, ltb, leb, ltb→lt, ltb→le, leb→le, leb→lt, or_false, if_both,
  length, take, All, append-nil, append_assoc, take-nil, is_member,
}
use avbox.Prelude.{if_by}
use avbox.Prelude.Bytes.{Bytes}
use mathlib.Core.List.{Memᴰ}
use mathlib.Core.List.Memᴰ.{head, tail}
use avbox.Structural.Fat.Owned.{IsCluster, bytes_at, read_chain, IsChain, nothing, final, further}
use avbox.Prelude.Distinct.{Distinct, length-Distinct}
use avbox.Prelude.Stops.{Stops, gives, Stops-mono, Stops-bind}
use avbox.DiskImages.Types.{Text}
use avbox.DiskImages.Fat.{Geometry}
use avbox.Structural.Types.{Finding}
use avbox.Structural.Facts.{snoc_apart}
use avbox.Structural.Fat.Chain.{
  fat_value, end_mark, Track, is_crosslinked, ChainStep, leave, next, follow_value, chain_step,
  chain_from, cut_chain, fat_chain,
}

-- Code after which there is no finding has come to clusters of the chain, and to no others.
abbrev pub Adds : List ℕ → Track → Track → Type 0
Adds cs t u = (c : ℕ) → Memᴰ c u.reachable → Memᴰ c cs ⊎ Memᴰ c t.reachable

noted : {A : Type 0} (t : Track) (f : Finding) → t.findings ++ (f ∷ []) ≡ [] → A
noted t f e = absurd (snoc_apart t.findings f e)

ChainStep-cases :
    (r : ChainStep)
    → ((o : Bytes) × (t : Track) × (r ≡ leave o t))
      ⊎ ((v : ℕ) × (o : Bytes) × (t : Track) × (r ≡ next v o t))
ChainStep-cases (leave o t) = inl (o, t, refl)
ChainStep-cases (next v o t) = inr (v, o, t, refl)

module _ (max_nodes : ℕ) (g : Geometry) (file fat : Bytes) (owner : Text) where
  -- What a chain from `current` has read where there is no finding after it.
  Walks : ℕ → Bytes → Track → Bytes → Track → Type 0
  Walks current out t o u =
      u.findings ≡ []
      → (t.findings ≡ [])
        × ((cs : List ℕ) × IsChain g file fat current cs
            × (o ≡ out ++ read_chain g file fat cs)
            × Adds cs t u)

  -- What a round does at `current`.
  Steps : ℕ → List ℕ → Bytes → Track → ChainStep → Type 0
  Steps current seen out t (leave o u) =
      (u.dirs ≡ t.dirs) × Walks current out t o u × ((o ≡ out) ⊎ IsCluster g file fat current)
  Steps current seen out t (next v o u) =
      (u.dirs ≡ t.dirs)
      × (u.findings ≡ t.findings)
      × (u.reachable ≡ current ∷ t.reachable)
      × IsCluster g file fat current
      × (is_member current seen ≡ false)
      × (v ≡ fat_value g.variant fat current)
      × (2 ≤ v)
      × (o ≡ out ++ bytes_at g file fat current)

  added : (c : ℕ) (cs : List ℕ) (t u : Track) → u.reachable ≡ c ∷ t.reachable → Adds (c ∷ cs) t u
  added c cs t u e k m = split (rw e at m)
    where
      split : Memᴰ k (c ∷ t.reachable) → Memᴰ k (c ∷ cs) ⊎ Memᴰ k t.reachable
      split (head same) = inl (head same)
      split (tail old) = inr old

  follow_value-Steps :
      (current : ℕ) (seen : List ℕ) (out : Bytes) (t : Track) (us : List (ℕ × Text))
      → IsCluster g file fat current
      → is_member current seen ≡ false
      → Steps current seen out t (
          follow_value max_nodes g
            (fat_value g.variant fat current)
            (length seen + 1)
            (out ++ bytes_at g file fat current)
            (record t { used = us; reachable = current ∷ t.reachable }))
  unfolding Steps follow_value Walks
  follow_value-Steps current seen out t us inside new =
      let value = fat_value g.variant fat current in
      let u : Track = record t { used = us; reachable = current ∷ t.reachable } in
      let P = Steps current seen out t in
      if_by P (leb (end_mark g.variant) value)
        (λ large. (
          refl,
          (λ e. (
            e,
            (
              current ∷ [],
              final inside (leb→le _ _ large),
              ap (λ b. out ++ b) (sym (append-nil (bytes_at g file fat current))),
              added current [] t u refl,
            ),
          )),
          inr inside,
        ))
        (λ _.
          if_by P (ltb value 2 || leb (g.clusters + 2) value) (λ _. (refl, noted t _, inr inside))
            (λ fits.
              let (low, _) = or_false (ltb value 2) _ fits in
              if_by P (ltb max_nodes (length seen + 1)) (λ _. (refl, noted t _, inr inside))
                (λ _. (refl, refl, refl, inside, new, refl, ltb→le _ _ low, refl))))

  chain_step-Steps :
      (current : ℕ) (seen : List ℕ) (out : Bytes) (t : Track)
      → Steps current seen out t (chain_step max_nodes g file fat owner current seen out t)
  unfolding Steps chain_step Walks
  chain_step-Steps current seen out t =
      let P = Steps current seen out t in
      if_by P (ltb current 2)
        (λ small. (
          refl,
          (λ e. (e, ([], nothing (ltb→lt _ _ small), sym (append-nil out), λ c m. inr m))),
          inl refl,
        ))
        (λ high.
          if_by P (is_member current seen) (λ _. (refl, noted t _, inl refl))
            (λ new.
              if_by P (leb (g.clusters + 2) current) (λ _. (refl, noted t _, inl refl))
                (λ low.
                  if_by P (is_crosslinked current owner t.used) (λ _. (refl, noted t _, inl refl))
                    (λ _.
                      follow_value-Steps current seen out t _ (ltb→le _ _ high, leb→lt _ _ low)
                        new))))

  -- What a chain does; `content` is what is read of it.
  unfoldable pub Follows : Option ℕ → ℕ → Track → Bytes × Track → Type 0
  Follows wanted start t r =
      (r.1.dirs ≡ t.dirs)
      × (r.1.findings ≡ []
          → (t.findings ≡ [])
            × ((cs : List ℕ) × IsChain g file fat start cs
                × (wanted ≡ none → r.0 ≡ read_chain g file fat cs)
                × Adds cs t r.1))
      × ((r.0 ≡ []) ⊎ IsCluster g file fat start)

  Walks-next :
      (current v : ℕ) (out o : Bytes) (t u : Track) (o1 : Bytes) (u1 : Track)
      → IsCluster g file fat current
      → v ≡ fat_value g.variant fat current
      → 2 ≤ v
      → o ≡ out ++ bytes_at g file fat current
      → u.findings ≡ t.findings
      → u.reachable ≡ current ∷ t.reachable
      → Walks v o u o1 u1
      → Walks current out t o1 u1
  unfolding Walks
  Walks-next current v out o t u o1 u1 inside to high read same reach rest e =
      let (clean, (cs, chain, content, adds)) = rest e in
      (
        sym same ∙ clean,
        (
          current ∷ cs,
          further inside (rw to at high) (rw to at chain),
          content
              ∙ (ap (λ b. b ++ read_chain g file fat cs) read
                  ∙ append_assoc out (bytes_at g file fat current) (read_chain g file fat cs)),
          λ c m. elim (adds c m) [
            | inl later ↦ inl (tail later)
            | inr before ↦ added current cs t u reach c before
          ],
        ),
      )

  -- There is a round of fuel for each cluster, and one for the end.
  chain_from-Walks :
      (fuel current : ℕ) (seen : List ℕ) (out : Bytes) (t : Track)
      → Distinct seen
      → All (λ c. c < g.clusters + 2) seen
      → g.clusters + 3 ≤ fuel + length seen
      → Stops
          (λ r.
            (r.1.dirs ≡ t.dirs)
            × Walks current out t r.0 r.1
            × ((r.0 ≡ out) ⊎ IsCluster g file fat current))
          (λ _. ⊥)
          (chain_from max_nodes g file fat owner fuel current seen out t)
  unfolding chain_from Steps
  chain_from-Walks zero current seen out t apart low enough =
      absurd (omega (arith, enough, length-Distinct (g.clusters + 2) seen apart low))
  chain_from-Walks (suc fuel) current seen out t apart low enough =
      elim (ChainStep-cases (chain_step max_nodes g file fat owner current seen out t)) [
        | inl (o, u, left) ↦
            let step : Steps current seen out t (leave o u) =
              rw left at (chain_step-Steps current seen out t) in
            rw (left, chain_from) (gives step)
        | inr (v, o, u, went) ↦
            let (same, found, reach, inside, new, to, high, read) : Steps current seen out t
                (next v o u) =
              rw went at (chain_step-Steps current seen out t) in
            rw (went, chain_from)
              (Stops-mono
                (chain_from-Walks fuel v (current ∷ seen) o u (new, apart) (inside.1, low)
                  (omega (arith, enough)))
                (λ r (same1, rest, _). (
                  same1 ∙ same,
                  Walks-next current v out o t u r.0 r.1 inside to high read found reach rest,
                  inr inside,
                )))
      ]

  cut_chain-Follows :
      (start : ℕ) (wanted : Option ℕ) (t : Track) (r : Bytes × Track)
      → r.1.dirs ≡ t.dirs
      → Walks start [] t r.0 r.1
      → (r.0 ≡ []) ⊎ IsCluster g file fat start
      → Follows wanted start t (cut_chain wanted r)
  unfolding Follows cut_chain Walks
  cut_chain-Follows start none t r same walks content = (
    same,
    (λ e.
        let (clean, (cs, chain, read, adds)) = walks e in (clean, (cs, chain, (λ _. read), adds))),
    content,
  )
  cut_chain-Follows start (some wanted) t (out, u) same walks content =
      let whole : u.findings ≡ []
          → (t.findings ≡ [])
            × ((cs : List ℕ) × IsChain g file fat start cs
                × (some wanted ≡ none → take wanted out ≡ read_chain g file fat cs)
                × Adds cs t u) =
        λ e.
          let (clean, (cs, chain, read, adds)) = walks e in
          (clean, (cs, chain, (λ no. absurd cc), adds)) in
      (
        if_both (λ (x : Track). x.dirs ≡ t.dirs) (ltb (length out) wanted) same same,
        if_both
            (λ (x : Track).
              x.findings ≡ []
              → (t.findings ≡ [])
                × ((cs : List ℕ) × IsChain g file fat start cs
                    × (some wanted ≡ none → take wanted out ≡ read_chain g file fat cs)
                    × Adds cs t x))
            (ltb (length out) wanted) (noted u _) whole,
        elim content [ inl e ↦ inl (rw e (take-nil wanted)) | inr inside ↦ inr inside ],
      )

  pub fat_chain-Follows :
      (start : ℕ) (wanted : Option ℕ) (t : Track)
      → Stops
          (Follows wanted start t)
          (λ _. ⊥)
          (fat_chain max_nodes g file fat owner start wanted t)
  unfolding fat_chain
  fat_chain-Follows start wanted t =
      Stops-bind _ (chain_from-Walks (suc (g.clusters + 2)) start [] [] t tt tt (omega arith))
        (λ r (same, walks, content). gives (cut_chain-Follows start wanted t r same walks content))
