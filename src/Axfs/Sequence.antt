-- ===== src/Axfs/Sequence.antt =====
-- fs/axfs.c: reads of a file one after the other, each from where the one before it has stopped.
use airix.Prelude.{
  zero_add, add_zero, add_suc, suc_add, ℕ, zero, suc, ◌+◌, ◌-◌, ◌*◌, ◌%◌, ◌^◌, ◌≤◌, ◌<◌, min, ◌≡◌,
  refl, sym, ap, ◌∙◌, inl, inr, Bool, true, ◌||◌, Option, none, some, List, [], ◌∷◌, ◌++◌, arith,
  dec_le, ◌==◌, Bool-cases, ◌>>=◌, >>=-eq-some, subst_some,
}
use airix.Axfs.{Disk, AxInode, read_file}
use airix.Axfs.Read.{read_file-read_bytes, sector_at, byte_at, read_bytes, read_file-read_bytes}
use airix.Axfs.Ops.{File, Vfs, ax_read, o_rdonly, o_rdwr, File, Vfs, ax_read, o_rdonly, o_rdwr}

abbrev Reading : Type 0
Reading = Option ℕ × List ℕ

-- Two readings as one; the second is not made where the first has failed.
pub join : Reading → Reading → Reading
join (none, xs) r = (none, xs)
join (some k, xs) r = ((r.0 >>= λ c. some (k + c)), xs ++ r.1)

abbrev step : ℕ → Reading → Reading
step x r = ((r.0 >>= λ c. some (suc c)), x ∷ r.1)

join-step : (x : ℕ) (a b : Reading) → step x (join a b) ≡ join (step x a) b
unfolding join
join-step x (none, xs) b = refl
join-step x (some k, xs) (none, ys) = refl
join-step x (some k, xs) (some c, ys) = ap (λ n. (some n, x ∷ (xs ++ ys))) (omega arith)

join_nothing : (b : Reading) → b ≡ join (some 0, []) b
unfolding join
join_nothing (none, ys) = refl
join_nothing (some c, ys) = ap (λ n. (some n, ys)) (omega arith)

not_some : (k : ℕ) → none ≡ some k → ⊥
not_some k e = cc

suc_count :
    (m : Option ℕ) (n k : ℕ)
    → ((c : ℕ) → m ≡ some c → c ≡ n)
    → (m >>= λ c. some (suc c)) ≡ some k
    → k ≡ suc n
suc_count m n k all e =
    let (c, made, more) = >>=-eq-some m _ e in
    subst_some (λ j. j ≡ suc n) more (ap suc (all c made))

module _ (d : Disk) (device : ℕ) (node : AxInode) where
  -- A reading that succeeds reads all that was asked for.
  pub read_bytes-count : (n pos k : ℕ) → (read_bytes n d device node pos).0 ≡ some k → k ≡ n
  unfolding read_bytes
  read_bytes-count zero pos k e = subst_some (λ j. j ≡ 0) e refl
  read_bytes-count (suc n) pos k e = elim (Bool-cases (d.ok device (sector_at node pos))) [
    | inl ok ↦
        suc_count (read_bytes n d device node (pos + 1)).0 n k (read_bytes-count n (pos + 1))
          (rw ok at e)
    | inr bad ↦ absurd (not_some k (rw bad at e))
  ]

  pub read_bytes-append :
      (n m pos : ℕ)
      → read_bytes (n + m) d device node pos
        ≡ join (read_bytes n d device node pos) (read_bytes m d device node (pos + n))
  unfolding read_bytes join
  read_bytes-append zero m pos =
      rw (zero_add m, add_zero pos) (join_nothing (read_bytes m d device node pos))
  read_bytes-append (suc n) m pos = elim (Bool-cases (d.ok device (sector_at node pos))) [
    | inl ok ↦
        rw (suc_add n m, add_suc pos n, ok, read_bytes-append n m (pos + 1))
          (join-step (byte_at d device node pos) (read_bytes n d device node (pos + 1))
            (read_bytes m d device node (pos + 1 + n)))
    | inr bad ↦ rw (suc_add n m, bad) refl
  ]

  -- How much is read at a position.
  abbrev reach : ℕ → ℕ → ℕ
  reach pos size = min (min size (node.i_size - pos)) (21 * 1024 - pos)

  join_readings :
      (n₁ n₂ n pos k : ℕ) {a b whole : Reading}
      → whole ≡ read_bytes n d device node pos
      → n ≡ n₁ + n₂
      → k ≡ n₁
      → a ≡ read_bytes n₁ d device node pos
      → b ≡ read_bytes n₂ d device node (pos + k)
      → whole ≡ join a b
  join_readings n₁ n₂ n pos k w sum count e f =
      rw (w, sum, e, f, count) (read_bytes-append n₁ n₂ pos)

  read_file-join :
      (pos a b k m : ℕ)
      → node.i_size ≤ 2 ^ 42
      → (read_file d device node pos a).0 ≡ some k
      → (read_file d device node (pos + k) b).0 ≡ some m
      → read_file d device node pos (a + b)
        ≡ join (read_file d device node pos a) (read_file d device node (pos + k) b)
  unfolding join read_bytes
  read_file-join pos a b k m fits e f =
      let (over_a, far_a, near_a) = read_file-read_bytes d device node pos a fits in
      let (over_b, far_b, near_b) = read_file-read_bytes d device node (pos + k) b fits in
      let (over, far, near) = read_file-read_bytes d device node pos (a + b) fits in
      elim (dec_le node.i_size pos) [
        | yes end ↦ rw (over end, over_a end, over_b (omega arith)) refl
        | no more ↦ elim (dec_le (21 * 1024) pos) [
          | yes high ↦ absurd (not_some k (sym (ap (λ r. r.0) (far_a (omega arith) high)) ∙ e))
          | no low ↦
              let first = near_a (omega arith) (omega arith) in
              let whole = near (omega arith) (omega arith) in
              let all : k ≡ reach pos a =
                read_bytes-count (reach pos a) pos k (sym (ap (λ r. r.0) first) ∙ e) in
              elim (dec_le node.i_size (pos + k)) [
                | yes end ↦
                    join_readings (reach pos a) 0 (reach pos (a + b)) pos k whole (omega arith) all
                      first (over_b end)
                | no more' ↦ elim (dec_le (21 * 1024) (pos + k)) [
                  | yes high ↦
                      absurd (not_some m (sym (ap (λ r. r.0) (far_b (omega arith) high)) ∙ f))
                  | no low' ↦
                      join_readings (reach pos a) (reach (pos + k) b) (reach pos (a + b)) pos k
                        whole (omega arith) all first (near_b (omega arith) (omega arith))
                ]
              ]
        ]
      ]

at_pos : (pos k : ℕ) → pos + k < 2 ^ 64 → (pos + k) % 2 ^ 64 ≡ pos + k
at_pos pos k h = omega arith

sum_pos : (pos k m : ℕ) → pos + (k + m) ≡ pos + k + m
sum_pos pos k m = omega arith

abbrev readable : File → Bool
readable file = (file.f_flags == o_rdonly) || (file.f_flags == o_rdwr)

-- What `read_file` gives for an open file.
abbrev file_reading : Disk → File → ℕ → Vfs → Reading
file_reading d file size s =
    let inode = s.inodes file.f_inode in
    read_file d inode.i_device (s.ax.inode inode.i_private) file.f_pos size

abbrev moved : File → ℕ → File
moved file k = record file { f_pos = (file.f_pos + k) % 2 ^ 64 }

ax_read-some :
    (d : Disk) (file : File) (size k : ℕ) (s : Vfs)
    → readable file ≡ true
    → (file_reading d file size s).0 ≡ some k
    → ax_read d file size s ≡ (some k, (file_reading d file size s).1, moved file k)
unfolding ax_read
ax_read-some d file size k s can e = rw (can, e) refl

-- A read that succeeds is of a file that may be read.
ax_read_succeeds :
    (d : Disk) (file : File) (size k : ℕ) (s : Vfs)
    → (ax_read d file size s).0 ≡ some k
    → (readable file ≡ true) × ((file_reading d file size s).0 ≡ some k)
unfolding ax_read
ax_read_succeeds d file size k s e = elim (Bool-cases (readable file)) [
  | inl can ↦ (can, rw can at e)
  | inr not_allowed ↦ absurd (not_some k (rw not_allowed at e))
]

join-some :
    (a b : Reading) (k m : ℕ) → a.0 ≡ some k → b.0 ≡ some m → join a b ≡ (some (k + m), a.1 ++ b.1)
unfolding join
join-some (none, xs) b k m e f = absurd (not_some k e)
join-some (some c, xs) (none, ys) k m e f = absurd (not_some m f)
join-some (some c, xs) (some c', ys) k m e f =
    let first : c ≡ k = subst_some (λ k. c ≡ k) e refl in
    let second : c' ≡ m = subst_some (λ m. c' ≡ m) f refl in rw (first, second) refl

-- Two reads of a file of at most 2 ^ 42 bytes that succeed, the second from where the first has
-- stopped, are one read of both sizes: its count is the sum, its buffer holds the bytes of both, and
-- the file stands at the same position.
pub ax_read-ax_read :
    (d : Disk) (file : File) (a b k m : ℕ) (s : Vfs)
    → (s.ax.inode (s.inodes file.f_inode).i_private).i_size ≤ 2 ^ 42
    → file.f_pos + k < 2 ^ 64
    → (ax_read d file a s).0 ≡ some k
    → (ax_read d (ax_read d file a s).2 b s).0 ≡ some m
    → ax_read d file (a + b) s ≡ (
      some (k + m),
      (ax_read d file a s).1 ++ (ax_read d (ax_read d file a s).2 b s).1,
      (ax_read d (ax_read d file a s).2 b s).2,
    )
ax_read-ax_read d file a b k m s fits room e f =
    let (can, e') = ax_read_succeeds d file a k s e in
    let first = ax_read-some d file a k s can e' in
    let f' = rw first at f in
    let (can', g) = ax_read_succeeds d (moved file k) b m s f' in
    let second = ax_read-some d (moved file k) b m s can' g in
    let g' = rw (at_pos file.f_pos k room) at g in
    let whole =
      read_file-join d (s.inodes file.f_inode).i_device
        (s.ax.inode (s.inodes file.f_inode).i_private) file.f_pos a b k m fits e' g' in
    let joined = whole ∙ join-some _ _ k m e' g' in
    let third = ax_read-some d file (a + b) (k + m) s can (ap (λ r. r.0) joined) in
    rw (third, first, second, at_pos file.f_pos k room, joined, sum_pos file.f_pos k m) refl
