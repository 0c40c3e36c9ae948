-- ===== src/Accounting/Sink/Chunks.antt =====
-- Writing an output by chunks: what `finish` returns, and when.
use turn_vector_benchmark.Base.{
  ℕ, zero, suc, ◌+◌, ◌-◌, ◌≤◌, ltb, ◌≡◌, refl, sym, ap, ◌∙◌, subst, ◌↔◌, true, false, Option, List,
  [], ◌∷◌, ◌++◌, length, length-append, All, inl, inr, arith, Bool-cases, Result-cases, ok, err,
  Error, internal_error,
}
use turn_vector_benchmark.Base.Bytes.{overwrite, zeros, length-zeros}
use turn_vector_benchmark.Base.Int.{ℤ, pos, negsuc, ltb_ℤ}
use turn_vector_benchmark.Base.Exec.{Exec, pure, ◌>>◌}
use turn_vector_benchmark.Limits.{u64_max, checked_nonnegative_u64, checked_add, CompileLimits}
use turn_vector_benchmark.Accounting.Fault.{FaultInjector}
use turn_vector_benchmark.Limits.Arithmetic.{checked_add-ok, checked_arithmetic-Exact}
use turn_vector_benchmark.Accounting.Sink.{OutputSink, new_sink, write, finish}

abbrev pub write_all : List (List ℕ) → Exec OutputSink (Unit {0})
write_all [] = pure tt
write_all (chunk ∷ chunks) = do write chunk; write_all chunks

abbrev pub build : List (List ℕ) → Exec OutputSink (List ℕ)
build chunks = do write_all chunks; finish

abbrev pub joined : List (List ℕ) → List ℕ
joined [] = []
joined (chunk ∷ chunks) = chunk ++ joined chunks

append_nil : {A : Type 0} (xs : List A) → xs ++ [] ≡ xs
append_nil [] = refl
append_nil (x ∷ xs) = ap (λ t. x ∷ t) (append_nil xs)

append_assoc : {A : Type 0} (xs ys zs : List A) → (xs ++ ys) ++ zs ≡ xs ++ (ys ++ zs)
append_assoc [] ys zs = refl
append_assoc (x ∷ xs) ys zs = ap (λ t. x ∷ t) (append_assoc xs ys zs)

overwrite_start :
    (c : List ℕ) (r : ℕ) → length c ≤ r → overwrite 0 c (zeros r) ≡ c ++ zeros (r - length c)
overwrite_start [] r h = ap (λ t. zeros t) (omega arith)
overwrite_start (x ∷ c) zero h = absurd (omega arith)
overwrite_start (x ∷ c) (suc r) h =
    ap (λ t. x ∷ t) (overwrite_start c r (omega arith) ∙ ap (λ t. c ++ zeros t) (omega arith))

overwrite_next :
    (d c : List ℕ) (r : ℕ)
    → length c ≤ r
    → overwrite (length d) c (d ++ zeros r) ≡ (d ++ c) ++ zeros (r - length c)
overwrite_next [] c r h = overwrite_start c r h
overwrite_next (y ∷ d) [] r h =
    ap (λ t. y ∷ t)
      (ap (λ t. d ++ zeros t) (omega arith) ∙ ap (λ t. t ++ zeros (r - 0)) (sym (append_nil d)))
overwrite_next (y ∷ d) (x ∷ c) r h = ap (λ t. y ∷ t) (overwrite_next d (x ∷ c) r h)

-- What `write` does on each branch.
module _ (c : List ℕ) (s : OutputSink) where
  write_refused : ltb_ℤ s.chunk_max (pos (length c)) ≡ true → write c s ≡ (err internal_error, s)
  unfolding write
  write_refused h = ground arith

  write_overflow :
      (e : Error)
      → ltb_ℤ s.chunk_max (pos (length c)) ≡ false
      → checked_add (pos s.offset) (pos (length c)) ≡ err e
      → write c s ≡ (err e, s)
  unfolding write
  write_overflow e h sum = ground arith

  write_full :
      (end : ℕ)
      → ltb_ℤ s.chunk_max (pos (length c)) ≡ false
      → checked_add (pos s.offset) (pos (length c)) ≡ ok end
      → ltb (length s.buffer) end ≡ true
      → write c s ≡ (err internal_error, s)
  unfolding write
  write_full end h sum full = ground arith

  write_fits :
      (end : ℕ)
      → ltb_ℤ s.chunk_max (pos (length c)) ≡ false
      → checked_add (pos s.offset) (pos (length c)) ≡ ok end
      → ltb (length s.buffer) end ≡ false
      → write c s ≡ (ok tt, record s { buffer = overwrite s.offset c s.buffer; offset = end })
  unfolding write
  write_fits end h sum room = ground arith

-- The sink that has taken `d` and has room for `r` more bytes.
abbrev pub filled : ℤ → List ℕ → ℕ → OutputSink
filled m d r = record { buffer = d ++ zeros r; chunk_max = m; offset = length d }

abbrev pub Admits : ℤ → List ℕ → Type 0
Admits m c = ltb_ℤ m (pos (length c)) ≡ false

sum_of : (a b n : ℕ) → checked_add (pos a) (pos b) ≡ ok n → n ≡ a + b
sum_of a b n h =
    let (l, r, p, q, hl, hr, e, fits) = (checked_arithmetic-Exact (pos a) (pos b) n).0.0 h in
    ground arith

module _ (m : ℤ) (d : List ℕ) (r : ℕ) where
  capacity : length (d ++ zeros r) ≡ length d + r
  capacity = length-append d (zeros r) ∙ ap (λ t. length d + t) (length-zeros r)

  filled_next :
      (c : List ℕ)
      → length c ≤ r
      → record (filled m d r) {
        buffer = overwrite (length d) c (d ++ zeros r);
        offset = length d + length c;
      }
        ≡ filled m (d ++ c) (r - length c)
  filled_next c room =
      ap (λ b. record (filled m d r) { buffer = b; offset = length d + length c })
        (overwrite_next d c r room)
      ∙ ap (λ n. record { buffer = (d ++ c) ++ zeros (r - length c); chunk_max = m; offset = n })
          (sym (length-append d c))

  write_room :
      (c : List ℕ)
      → length d + r ≤ u64_max
      → Admits m c
      → length c ≤ r
      → write c (filled m d r) ≡ (ok tt, filled m (d ++ c) (r - length c))
  write_room c small h room =
      write_fits c (filled m d r) (length d + length c) h
        (checked_add-ok (length d) (length c) (omega arith)) (ground (arith, capacity))
      ∙ ap (λ s. (ok tt, s)) (filled_next c room)

  -- A write that has returned.
  write_returned :
      (c : List ℕ) (s : OutputSink)
      → length d + r ≤ u64_max
      → write c (filled m d r) ≡ (ok tt, s)
      → Admits m c × (length c ≤ r) × (s ≡ filled m (d ++ c) (r - length c))
  write_returned c s small h = elim (Bool-cases (ltb_ℤ m (pos (length c)))) [
    | inl big ↦ absurd (ground (arith, write_refused c (filled m d r) big))
    | inr admits ↦ elim (Result-cases (checked_add (pos (length d)) (pos (length c)))) [
      | inr (e, sum) ↦ absurd (ground (arith, write_overflow c (filled m d r) e admits sum))
      | inl (end, sum) ↦ elim (Bool-cases (ltb (length (d ++ zeros r)) end)) [
        | inl full ↦ absurd (ground (arith, write_full c (filled m d r) end admits sum full))
        | inr room ↦
            (let fits : length c ≤ r =
                ground (arith, capacity, sum_of (length d) (length c) end sum) in
              (admits, fits, ap (λ t. t.1) (sym h ∙ write_room c small admits fits)))
      ]
    ]
  ]

module _ (c : List ℕ) (cs : List (List ℕ)) (s s' : OutputSink) where
  build_next : write c s ≡ (ok tt, s') → build (c ∷ cs) s ≡ build cs s'
  build_next h = ground arith

  build_stops : (e : Error) → write c s ≡ (err e, s') → (build (c ∷ cs) s).0 ≡ err e
  build_stops e h = ground arith

-- The sink is full exactly when no room is left.
finish-filled :
    (m : ℤ) (d : List ℕ) (r : ℕ) (b : List ℕ)
    → (finish (filled m d r)).0 ≡ ok b
    → (r ≡ 0) × (b ≡ d ++ zeros r)
unfolding finish
finish-filled m d r b h = (ground (arith, capacity m d r), ground (arith, capacity m d r))

finish_full : (m : ℤ) (d : List ℕ) → (finish (filled m d 0)).0 ≡ ok d
unfolding finish
finish_full m d = ground (arith, append_nil d)

build-joined :
    (m : ℤ) (chunks : List (List ℕ)) (d : List ℕ) (r : ℕ) (b : List ℕ)
    → length d + r ≤ u64_max
    → (build chunks (filled m d r)).0 ≡ ok b
    → All (Admits m) chunks × (length (joined chunks) ≡ r) × (b ≡ d ++ joined chunks)
build-joined m [] d r b small h =
    let (none_left, same) = finish-filled m d r b h in
    (tt, sym none_left, rw same (ap (λ t. d ++ zeros t) none_left))
build-joined m (c ∷ cs) d r b small h = elim (Result-cases (write c (filled m d r)).0) [
  | inr (e, stops) ↦ absurd (
      ground (
        arith,
        build_stops c cs (filled m d r) (write c (filled m d r)).1 e
            (ap (λ t. (t, (write c (filled m d r)).1)) stops),
      ))
  | inl (u, goes) ↦
      (let wrote : write c (filled m d r) ≡ (ok tt, (write c (filled m d r)).1) =
          ap (λ t. (t, (write c (filled m d r)).1)) goes in
        let (admits, fits, same) = write_returned m d r c (write c (filled m d r)).1 small wrote in
        let rest =
          build-joined m cs (d ++ c) (r - length c) b
            (omega (arith, length-append d c, small, fits))
            (ap (λ t. t.0)
                (sym (
                  build_next c cs (filled m d r) (filled m (d ++ c) (r - length c))
                    (wrote ∙ ap (λ s. (ok tt, s)) same)))
              ∙ h) in
        (
          (admits, rest.0),
          omega (arith, length-append c (joined cs), rest.1, fits),
          rest.2 ∙ append_assoc d c (joined cs),
        ))
]

joined-build :
    (m : ℤ) (chunks : List (List ℕ)) (d : List ℕ) (r : ℕ)
    → length d + r ≤ u64_max
    → All (Admits m) chunks
    → length (joined chunks) ≡ r
    → (build chunks (filled m d r)).0 ≡ ok (d ++ joined chunks)
joined-build m [] d r small admits sized =
    subst (λ t. (build [] (filled m d t)).0 ≡ ok (d ++ [])) sized
      (finish_full m d ∙ ap (λ t. ok t) (sym (append_nil d)))
joined-build m (c ∷ cs) d r small (admits, more) sized =
    let fits : length c ≤ r = omega (arith, length-append c (joined cs), sized) in
    ap (λ t. t.0)
      (build_next c cs (filled m d r) (filled m (d ++ c) (r - length c))
        (write_room m d r c small admits fits))
    ∙ joined-build m cs (d ++ c) (r - length c) (omega (arith, length-append d c, small, fits)) more
        (omega (arith, length-append c (joined cs), sized))
    ∙ ap (λ t. ok t) (append_assoc d c (joined cs))

new_sink-filled :
    (maxsize : ℕ) (size : ℤ) (limits : CompileLimits) (f g : Option FaultInjector)
    (sink : OutputSink)
    → new_sink maxsize size limits f ≡ (ok sink, g)
    → (n : ℕ) × (size ≡ pos n) × (n ≤ u64_max) × (sink ≡ filled sink.chunk_max [] n)
unfolding new_sink checked_nonnegative_u64
new_sink-filled maxsize (negsuc n) limits f g sink h = absurd (ground arith)
new_sink-filled maxsize (pos n) limits f g sink h = (n, refl, ground arith, ground arith)

-- A sink of the size `size` that was given chunks returns a result exactly if every chunk is within
-- the chunk bound and they sum to the size; and it is then their concatenation.
pub sink_builds :
    (maxsize : ℕ) (size : ℤ) (limits : CompileLimits) (f g : Option FaultInjector)
    (sink : OutputSink) (chunks : List (List ℕ)) (b : List ℕ)
    → new_sink maxsize size limits f ≡ (ok sink, g)
    → ((build chunks sink).0 ≡ ok b)
      ↔ (All (Admits sink.chunk_max) chunks × (pos (length b) ≡ size) × (b ≡ joined chunks))
sink_builds maxsize size limits f g sink chunks b made =
    let (n, sized, small, fresh) = new_sink-filled maxsize size limits f g sink made in
    (
      (λ h.
          let (admits, all, same) =
            build-joined sink.chunk_max chunks [] n b (omega (arith, small))
              (subst (λ t. (build chunks t).0 ≡ ok b) fresh h) in
          (admits, ap (λ t. pos (length t)) same ∙ ap (λ t. pos t) all ∙ sym sized, same)),
      λ (admits, full, same).
          subst (λ t. (build chunks t).0 ≡ ok b) (sym fresh)
            (joined-build sink.chunk_max chunks [] n (omega (arith, small)) admits (ground arith)
              ∙ ap (λ t. ok t) (sym same)),
    )
