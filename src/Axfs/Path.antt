-- ===== src/Axfs/Path.antt =====
-- fs/axfs.c: `namex` against a walk along the components of the path, and the objects it takes.
use airix.Prelude.{
  ℕ, zero, suc, ◌+◌, ◌<◌, ◌≡◌, refl, sym, ap, subst, ◌∙◌, ◌≢◌, inl, inr, true, false, Option, none,
  some, List, [], ◌∷◌, arith, ◌==◌, if◌then◌else◌, Bool-cases, length, update, update_self,
  List-cases,
}
use airix.Slab.{Slabs, slab_alloc, slab_free}
use airix.Axfs.{
  Disk, AxInode, AxSuperBlock, str_find, dir_find_ino, inode_read, inode_bg_index,
  inode_index_in_bg, ax_s_ifdir, next_begin, Ax, inode_get, inode_release, namex_loop, namex,
}
use airix.Axfs.Names.{
  names, head_name, head_name-str_find, length-head_name, names_none, names_cons, names_step,
  length-next_begin,
}
use airix.Axfs.Entries.{dir_find_ino_total, dir_find_ino-prefix}

-- The inode on the disk, and the one that a directory has under a name, 0 for none.
pub disk_inode : Disk → AxSuperBlock → ℕ → ℕ → AxInode
disk_inode d sb device ino = inode_read d device (inode_bg_index sb ino) (inode_index_in_bg sb ino)

pub or_zero : Option ℕ → ℕ
or_zero none = 0
or_zero (some ino) = ino

pub dir_lookup : Disk → ℕ → AxInode → List ℕ → ℕ
dir_lookup d device dir name = or_zero (dir_find_ino d dir name (length name) device)

pub walk : Disk → AxSuperBlock → ℕ → List (List ℕ) → ℕ → ℕ
walk d sb device [] ino = ino
walk d sb device (c ∷ cs) ino =
    let dir = disk_inode d sb device ino in
    let next = dir_lookup d device dir c in
    let rest = walk d sb device cs next in
    if dir.i_mode == ax_s_ifdir then (if next == 0 then 0 else rest) else 0

-- Objects of a cache that have been taken and given back, one after the other.
pub data Paired (cache : ℕ) : Slabs → Slabs → Type 0 where
  no_more : {s : Slabs} → Paired cache s s
  pair :
      {s s₁ s₂ s₃ : Slabs} (p : ℕ)
      → slab_alloc cache s ≡ some (p, s₁)
      → slab_free cache p s₁ ≡ some s₂
      → Paired cache s₂ s₃
      → Paired cache s s₃

-- The cache can give an object and take it back, n times in a row.
unfoldable pub Lasts : ℕ → ℕ → Slabs → Type 0
Lasts cache zero s = Unit
Lasts cache (suc n) s =
    (p : ℕ) × (s₁ : Slabs) × (s₂ : Slabs) × (slab_alloc cache s ≡ some (p, s₁))
    × (p ≢ 0)
    × (slab_free cache p s₁ ≡ some s₂)
    × Lasts cache n s₂

pub not_null : (p : ℕ) → p ≢ 0 → (p == 0) ≡ false
not_null p h = ground arith

dir_lookup_lem :
    (d : Disk) (device : ℕ) (dir : AxInode) (name : List ℕ)
    → dir_find_ino d dir name (length name) device ≡ some (dir_lookup d device dir name)
unfolding dir_lookup or_zero
dir_lookup_lem d device dir name =
    let (ino, e) = dir_find_ino_total d dir name (length name) device in
    e ∙ ap (λ m. some (or_zero m)) (sym e)

lookup-head_name :
    (d : Disk) (device : ℕ) (dir : AxInode) (xs : List ℕ)
    → dir_find_ino d dir xs (length (head_name xs)) device
      ≡ some (dir_lookup d device dir (head_name xs))
lookup-head_name d device dir xs =
    ap (λ ys. dir_find_ino d dir ys (length (head_name xs)) device) (sym (head_name-str_find xs))
    ∙ dir_find_ino-prefix (head_name xs) (str_find xs 47) d dir device
    ∙ dir_lookup_lem d device dir (head_name xs)

module _ (d : Disk) (sb : AxSuperBlock) (device : ℕ) where
  -- What the loop gives from a place in the path on; k more objects are to be had behind it.
  abbrev Walks : ℕ → List ℕ → ℕ → ℕ → Ax → Option (ℕ × Ax) → Type 0
  Walks k path ino cache s r =
      (s' : Ax) × (r ≡ some (walk d sb device (names path) ino, s'))
      × Paired cache s.slabs s'.slabs
      × (s'.inode_cache ≡ cache)
      × (walk d sb device (names path) ino ≢ 0 → Lasts cache k s'.slabs)

  abbrev pub held : ℕ → ℕ → Slabs → Ax → Ax
  held p ino slabs s = record s {
    slabs = slabs;
    inode = update s.inode p (disk_inode d sb device ino);
  }

  pub inode_get_lem :
      (p ino : ℕ) (slabs : Slabs) (s : Ax)
      → slab_alloc s.inode_cache s.slabs ≡ some (p, slabs)
      → p ≢ 0
      → inode_get d sb device ino s ≡ some (p, held p ino slabs s)
  unfolding inode_get disk_inode
  inode_get_lem p ino slabs s e some_p = rw (e, not_null p some_p) refl

  pub inode_release_lem :
      (p : ℕ) (slabs : Slabs) (s : Ax)
      → slab_free s.inode_cache p s.slabs ≡ some slabs
      → p ≢ 0
      → inode_release p s ≡ some (record s { slabs = slabs })
  unfolding inode_release
  inode_release_lem p slabs s e some_p = rw (not_null p some_p, e) refl

  -- The state behind the inode that was taken and given back.
  abbrev given_back : ℕ → ℕ → Slabs → Slabs → Ax → Ax
  given_back p ino s₁ s₂ s = record (held p ino s₁ s) { slabs = s₂ }

  -- A name of the path, and what the inode cache does in its round: it gives p and takes it back.
  module _ (path : List ℕ) (ino p c : ℕ) (cs : List ℕ) (s₁ s₂ : Slabs) (s : Ax)
      (more : head_name path ≡ c ∷ cs) (alloc : slab_alloc s.inode_cache s.slabs ≡ some (p, s₁))
      (some_p : p ≢ 0) (free : slab_free s.inode_cache p s₁ ≡ some s₂) where
    some_name : (length (head_name path) == 0) ≡ false
    some_name = rw more (ground arith)

    in_memory : (held p ino s₁ s).inode p ≡ disk_inode d sb device ino
    in_memory = update_self s.inode p (disk_inode d sb device ino)

    namex_loop-file :
        (n : ℕ)
        → ((disk_inode d sb device ino).i_mode == ax_s_ifdir) ≡ false
        → namex_loop (suc n) d sb device path ino s ≡ some (0, given_back p ino s₁ s₂ s)
    unfolding namex_loop
    namex_loop-file n file =
        let got = inode_get_lem p ino s₁ s alloc some_p in
        let given = inode_release_lem p s₂ (held p ino s₁ s) free some_p in
        rw (length-head_name path, some_name, got, not_null p some_p, in_memory, file, given) refl

    namex_loop-directory :
        (n : ℕ)
        → ((disk_inode d sb device ino).i_mode == ax_s_ifdir) ≡ true
        → namex_loop (suc n) d sb device path ino s ≡ (
            let next = dir_lookup d device (disk_inode d sb device ino) (head_name path) in
            if next == 0
            then some (0, given_back p ino s₁ s₂ s)
            else namex_loop n d sb device
                (next_begin (str_find path 47))
                next
                (given_back p ino s₁ s₂ s))
    unfolding namex_loop
    namex_loop-directory n is_dir =
        let got = inode_get_lem p ino s₁ s alloc some_p in
        let given = inode_release_lem p s₂ (held p ino s₁ s) free some_p in
        let found = lookup-head_name d device (disk_inode d sb device ino) path in
        rw
          (
            length-head_name path,
            some_name,
            got,
            not_null p some_p,
            in_memory,
            is_dir,
            found,
            given,
          )
          refl

    -- A round that ends at 0, as the walk does.
    stop_here :
        (k : ℕ) (r : Option (ℕ × Ax))
        → r ≡ some (0, given_back p ino s₁ s₂ s)
        → walk d sb device (names path) ino ≡ 0
        → Walks k path ino s.inode_cache s r
    stop_here k r e zero_walk = (
      given_back p ino s₁ s₂ s,
      e ∙ ap (λ m. some (m, given_back p ino s₁ s₂ s)) (sym zero_walk),
      pair p alloc free no_more,
      refl,
      λ found. absurd (found zero_walk),
    )

    walk-file :
        ((disk_inode d sb device ino).i_mode == ax_s_ifdir) ≡ false
        → walk d sb device (names path) ino ≡ 0
    unfolding walk
    walk-file file = rw (names_cons path c cs more, file) refl

    walk-directory :
        ((disk_inode d sb device ino).i_mode == ax_s_ifdir) ≡ true
        → walk d sb device (names path) ino ≡ (
            let next = dir_lookup d device (disk_inode d sb device ino) (head_name path) in
            if next == 0 then 0 else walk d sb device (names (next_begin (str_find path 47))) next)
    unfolding walk
    walk-directory is_dir = rw (names_cons path c cs more, is_dir) refl

    -- A round that goes on behind the name.
    go_on :
        (n k next : ℕ)
        → walk d sb device (names path) ino
          ≡ walk d sb device (names (next_begin (str_find path 47))) next
        → (r : Option (ℕ × Ax))
        → Walks k (next_begin (str_find path 47)) next s.inode_cache (given_back p ino s₁ s₂ s) r
        → Walks k path ino s.inode_cache s r
    go_on n k next same r (s', e, paired, kept, still) = (
      s',
      e ∙ ap (λ m. some (m, s')) (sym same),
      pair p alloc free paired,
      kept,
      λ found. still (λ z. found (same ∙ z)),
    )

  -- The end of the path.
  at_end :
      (n k : ℕ) (path : List ℕ) (ino : ℕ) (s : Ax)
      → head_name path ≡ []
      → Lasts s.inode_cache (length (names path) + k) s.slabs
      → Walks k path ino s.inode_cache s (namex_loop (suc n) d sb device path ino s)
  unfolding namex_loop walk
  at_end n k path ino s over lasts = (
    s,
    rw (length-head_name path, over, names_none path over) refl,
    no_more,
    refl,
    λ found.
        subst (λ n. Lasts s.inode_cache n s.slabs) (omega (arith, ap length (names_none path over)))
          lasts,
  )

  namex_loop-walk :
      (n k : ℕ) (path : List ℕ) (ino : ℕ) (s : Ax)
      → length path < n
      → Lasts s.inode_cache (length (names path) + k) s.slabs
      → Walks k path ino s.inode_cache s (namex_loop n d sb device path ino s)
  unfolding Lasts
  namex_loop-walk zero k path ino s fuel lasts = absurd (omega arith)
  namex_loop-walk (suc n) k path ino s fuel lasts = elim (List-cases (head_name path)) [
    | inl over ↦ at_end n k path ino s over lasts
    | inr (c, cs, more) ↦
        let dir : AxInode = disk_inode d sb device ino in
        let next : ℕ = dir_lookup d device dir (head_name path) in
        let (p, s₁, s₂, alloc, some_p, free, lasts') =
          subst (λ n. Lasts s.inode_cache n s.slabs) (names_step k path c cs more) lasts in
        elim (Bool-cases (dir.i_mode == ax_s_ifdir)) [
          | inr file ↦
              stop_here path ino p c cs s₁ s₂ s more alloc some_p free k _
                (namex_loop-file path ino p c cs s₁ s₂ s more alloc some_p free n file)
                (walk-file path ino p c cs s₁ s₂ s more alloc some_p free file)
          | inl is_dir ↦
              let step =
                namex_loop-directory path ino p c cs s₁ s₂ s more alloc some_p free n is_dir in
              let walked = walk-directory path ino p c cs s₁ s₂ s more alloc some_p free is_dir in
              elim (Bool-cases (next == 0)) [
                | inl missing ↦
                    stop_here path ino p c cs s₁ s₂ s more alloc some_p free k _
                      (step ∙ rw missing refl) (walked ∙ rw missing refl)
                | inr there ↦
                    rw (step, there)
                      (go_on path ino p c cs s₁ s₂ s more alloc some_p free n k next
                        (walked ∙ rw there refl) _
                        (namex_loop-walk n k (next_begin (str_find path 47)) next
                          (given_back p ino s₁ s₂ s)
                          (omega (arith, length-next_begin path c cs more)) lasts'))
              ]
        ]
  ]

  -- Where the inode cache can give and take back an object for each name of the path, and k more, namex
  -- returns the inode number that the walk along the names gives, 0 at a name that is missing or asked
  -- of no directory; each inode that it has taken it has given back, and the k more are still to be had
  -- where the number is not 0.
  pub namex-walk :
      (k : ℕ) (path : List ℕ) (ino : ℕ) (s : Ax)
      → Lasts s.inode_cache (length (names path) + k) s.slabs
      → Walks k path ino s.inode_cache s (namex d sb device path ino s)
  unfolding namex
  namex-walk k path ino s lasts =
      namex_loop-walk (suc (length path)) k path ino s (omega arith) lasts

pub inode_release_null : (s : Ax) → inode_release 0 s ≡ some s
unfolding inode_release
inode_release_null s = refl
