-- ===== src/Ramfs/Transfer.antt =====
-- `ramfs_write` and `ramfs_read` of fs/ramfs.c.
use mathlib.Core.Path.{subst}
use nika_kernel.Prelude.{
  ℕ, zero, suc, ◌+◌, ◌≤◌, ◌<◌, ◌≡◌, refl, arith, ap, sym, ◌∙◌, true, not, some, List, [], ◌∷◌, ◌++◌,
  length, length-append, if◌then◌else◌, lt→ltb,
}
use nika_kernel.CString.{Buffer, memcpy}
use nika_kernel.CString.Strings.{IsString}
use nika_kernel.Ramfs.{
  Ramfs, ramfs_max_file_size, fault, write_file, write_from, ramfs_write, read_from, ramfs_read,
}
use nika_kernel.Ramfs.Names.{Named, Absent, strcmp-same, strcmp-differs, strcmp-returns}

abbrev pub names_of : Ramfs → ℕ → Buffer
names_of s i = (s.ramfs_files i).name

write_from-short :
    (fuel n i : ℕ) (s : Ramfs) (name buf : Buffer) (len : ℕ) (cs : List ℕ) (ns : List (List ℕ))
    → n ≡ length ns
    → Named (names_of s) i ns
    → IsString name 0 cs
    → length cs < fuel
    → len ≤ ramfs_max_file_size
    → write_from fuel n i s name buf len ≡ some (fault, s)
unfolding write_from
write_from-short fuel zero i s name buf len cs ns e h hn enough short = refl
write_from-short fuel (suc n) i s name buf len cs [] e h hn enough short = absurd (omega arith)
write_from-short fuel (suc n) i s name buf len cs (m ∷ ns) e h hn enough short =
    let (r, run) = strcmp-returns fuel (names_of s i) name m cs h.0 hn enough in
    ground (
      arith,
      run,
      write_from-short fuel n (i + 1) s name buf len cs ns (omega arith) h.1 hn enough short,
    )

write_from-found :
    (fuel n i : ℕ) (s : Ramfs) (name buf : Buffer) (len : ℕ) (cs : List ℕ)
    (before after : List (List ℕ))
    → n ≡ length before + suc (length after)
    → Named (names_of s) i (before ++ cs ∷ after)
    → Absent cs before
    → IsString name 0 cs
    → length cs < fuel
    → ramfs_max_file_size < len
    → write_from fuel n i s name buf len
      ≡ some (ramfs_max_file_size, write_file s (i + length before) buf)
unfolding write_from
write_from-found fuel zero i s name buf len cs before after e h first hn enough long =
    absurd (omega arith)
write_from-found fuel (suc n) i s name buf len cs [] after e h first hn enough long =
    let (r, run, same) = strcmp-same fuel (names_of s i) name cs h.0 hn enough in
    rw (run, same, lt→ltb ramfs_max_file_size len long)
      (ap (λ k. some (ramfs_max_file_size, write_file s k buf)) {x = i} {y = i + 0} (omega arith))
write_from-found fuel (suc n) i s name buf len cs (m ∷ before) after e h first hn enough long =
    let (r, run, differs) = strcmp-differs fuel (names_of s i) name m cs h.0 hn enough first.0 in
    rw (run, differs)
      (write_from-found fuel n (i + 1) s name buf len cs before after (omega arith) h.1 first.1 hn
          enough long
        ∙ ap (λ k. some (ramfs_max_file_size, write_file s k buf)) {x = i + 1 + length before}
            {y = i + suc (length before)} (omega arith))

-- The bytes of file `i` that a read of `n` bytes gives.
abbrev pub read_file : Ramfs → ℕ → Buffer → ℕ → Buffer
read_file s i buf n = memcpy buf (λ j. s.memory ((s.ramfs_files i).data_ptr + j)) n

read_from-found :
    (fuel n i : ℕ) (s : Ramfs) (name buf : Buffer) (max_len : ℕ) (cs : List ℕ)
    (before after : List (List ℕ))
    → n ≡ length before + suc (length after)
    → Named (names_of s) i (before ++ cs ∷ after)
    → Absent cs before
    → IsString name 0 cs
    → length cs < fuel
    → max_len < (s.ramfs_files (i + length before)).size
    → read_from fuel n i s name buf max_len
      ≡ some (max_len, read_file s (i + length before) buf max_len)
unfolding read_from
read_from-found fuel zero i s name buf max_len cs before after e h first hn enough part =
    absurd (omega arith)
read_from-found fuel (suc n) i s name buf max_len cs [] after e h first hn enough part =
    let (r, run, same) = strcmp-same fuel (names_of s i) name cs h.0 hn enough in
    let index : i + 0 ≡ i = omega arith in
    let part' = subst (λ k. max_len < (s.ramfs_files k).size) index part in
    rw (run, same, lt→ltb max_len _ part')
      (ap (λ k. some (max_len, read_file s k buf max_len)) (sym index))
read_from-found fuel (suc n) i s name buf max_len cs (m ∷ before) after e h first hn enough part =
    let (r, run, differs) = strcmp-differs fuel (names_of s i) name m cs h.0 hn enough first.0 in
    let index : i + 1 + length before ≡ i + suc (length before) = omega arith in
    let part' = subst (λ k. max_len < (s.ramfs_files k).size) (sym index) part in
    rw (run, differs)
      (read_from-found fuel n (i + 1) s name buf max_len cs before after (omega arith) h.1 first.1
          hn enough part'
        ∙ ap (λ k. some (max_len, read_file s k buf max_len)) index)

read_from-whole :
    (fuel n i : ℕ) (s : Ramfs) (name buf : Buffer) (max_len : ℕ) (cs : List ℕ) (ns : List (List ℕ))
    → n ≡ length ns
    → Named (names_of s) i ns
    → IsString name 0 cs
    → length cs < fuel
    → ((j : ℕ) → (s.ramfs_files j).size ≤ max_len)
    → read_from fuel n i s name buf max_len ≡ some (fault, buf)
unfolding read_from
read_from-whole fuel zero i s name buf max_len cs ns e h hn enough small = refl
read_from-whole fuel (suc n) i s name buf max_len cs [] e h hn enough small = absurd (omega arith)
read_from-whole fuel (suc n) i s name buf max_len cs (m ∷ ns) e h hn enough small =
    let (r, run) = strcmp-returns fuel (names_of s i) name m cs h.0 hn enough in
    ground (
      arith,
      run,
      small i,
      read_from-whole fuel n (i + 1) s name buf max_len cs ns (omega arith) h.1 hn enough small,
    )

-- The files are available, and their names are strings, these ones.
pub record HasFiles (s : Ramfs) (ns : List (List ℕ)) : Type 0 where
  pub available : s.fs_true ≡ true
  pub counted : s.ramfs_file_count ≡ length ns
  pub named : Named (names_of s) 0 ns

-- Over files with strings as names, and with more fuel than the name is long, a write of at most
-- 1024 bytes returns FAULT and changes nothing, whatever the name; and a read into a buffer that is
-- no smaller than any file returns FAULT and leaves the buffer alone.
pub ramfs_write-ramfs_read-fault :
    (fuel : ℕ) (s : Ramfs) (ns : List (List ℕ)) (name buf : Buffer) (cs : List ℕ)
    → HasFiles s ns
    → IsString name 0 cs
    → length cs < fuel
    → ((len : ℕ) → len ≤ ramfs_max_file_size → ramfs_write fuel s name buf len ≡ some (fault, s))
      × ((max_len : ℕ)
          → ((j : ℕ) → (s.ramfs_files j).size ≤ max_len)
          → ramfs_read fuel s name buf max_len ≡ some (fault, buf))
unfolding ramfs_write ramfs_read
ramfs_write-ramfs_read-fault fuel s ns name buf cs h hn enough = (
  λ len short. simp h.available (
      write_from-short fuel s.ramfs_file_count 0 s name buf len cs ns h.counted h.named hn enough
        short),
  λ max_len small. simp h.available (
      read_from-whole fuel s.ramfs_file_count 0 s name buf max_len cs ns h.counted h.named hn enough
        small),
)

split_count :
    (before after : List (List ℕ)) (cs : List ℕ)
    → length (before ++ cs ∷ after) ≡ length before + suc (length after)
split_count before after cs = length-append before (cs ∷ after)

-- The first file with the name is the one that a write of more than 1024 bytes fills.
pub ramfs_write_long :
    (fuel : ℕ) (s : Ramfs) (before after : List (List ℕ)) (name buf : Buffer) (cs : List ℕ)
    (len : ℕ)
    → HasFiles s (before ++ cs ∷ after)
    → Absent cs before
    → IsString name 0 cs
    → length cs < fuel
    → ramfs_max_file_size < len
    → ramfs_write fuel s name buf len ≡ some (ramfs_max_file_size, write_file s (length before) buf)
unfolding ramfs_write
ramfs_write_long fuel s before after name buf cs len h first hn enough long =
    let n = s.ramfs_file_count in
    ap (λ c. if not c then some (fault, s) else write_from fuel n 0 s name buf len) h.available
    ∙ write_from-found fuel n 0 s name buf len cs before after
        (h.counted ∙ split_count before after cs) h.named first hn enough long
    ∙ ap (λ k. some (ramfs_max_file_size, write_file s k buf)) {x = 0 + length before}
        {y = length before} (omega arith)

pub ramfs_read_part :
    (fuel : ℕ) (s : Ramfs) (before after : List (List ℕ)) (name buf : Buffer) (cs : List ℕ)
    (max_len : ℕ)
    → HasFiles s (before ++ cs ∷ after)
    → Absent cs before
    → IsString name 0 cs
    → length cs < fuel
    → max_len < (s.ramfs_files (length before)).size
    → ramfs_read fuel s name buf max_len ≡ some (max_len, read_file s (length before) buf max_len)
unfolding ramfs_read
ramfs_read_part fuel s before after name buf cs max_len h first hn enough part =
    let index : length before ≡ 0 + length before = omega arith in
    simp h.available (
      read_from-found fuel s.ramfs_file_count 0 s name buf max_len cs before after
        (h.counted ∙ split_count before after cs) h.named first hn enough
        (subst (λ k. max_len < (s.ramfs_files k).size) index part)
      ∙ ap (λ k. some (max_len, read_file s k buf max_len)) (sym index))
