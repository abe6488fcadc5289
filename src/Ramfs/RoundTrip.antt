-- ===== src/Ramfs/RoundTrip.antt =====
-- A write and then a read through fs/ramfs.c.
use mathlib.Core.Path.{subst}
use nika_kernel.Prelude.{
  ℕ, ◌+◌, ◌-◌, ◌<◌, ◌≡◌, refl, arith, ap, sym, some, List, [], ◌∷◌, ◌++◌, length, ltb,
  if◌then◌else◌, ==_iff,
}
use nika_kernel.CString.{Buffer}
use nika_kernel.CString.Strings.{IsString}
use nika_kernel.Ramfs.{Ramfs, ramfs_max_file_size, copy_to, write_file, ramfs_write, ramfs_read}
use nika_kernel.Ramfs.Names.{Named, Absent}
use nika_kernel.Ramfs.Transfer.{names_of, read_file, HasFiles, ramfs_write_long, ramfs_read_part}

same_name :
    (s : Ramfs) (i : ℕ) (buf : Buffer) (j : ℕ) → names_of (write_file s i buf) j ≡ names_of s j
same_name s i buf j = ground arith

Named-write_file :
    (s : Ramfs) (i : ℕ) (buf : Buffer) (k : ℕ) (ns : List (List ℕ))
    → Named (names_of s) k ns
    → Named (names_of (write_file s i buf)) k ns
Named-write_file s i buf k [] h = tt
Named-write_file s i buf k (n ∷ ns) h = (
  subst (λ b. IsString b 0 n) (sym (same_name s i buf k)) h.0,
  Named-write_file s i buf (k + 1) ns h.1,
)

-- Over files with strings as names, a write of more than 1024 bytes to a name that some file has
-- succeeds with 1024, and a read of fewer than 1024 bytes from that name then returns the bytes
-- that were written, and changes no byte of the caller's buffer behind them.
pub ramfs_read-ramfs_write :
    (fuel : ℕ) (s : Ramfs) (before after : List (List ℕ)) (name buf out : Buffer) (cs : List ℕ)
    (len max_len : ℕ)
    → HasFiles s (before ++ cs ∷ after)
    → Absent cs before
    → IsString name 0 cs
    → length cs < fuel
    → ramfs_max_file_size < len
    → max_len < ramfs_max_file_size
    → (t : Ramfs) × (b : Buffer) × (ramfs_write fuel s name buf len ≡ some (ramfs_max_file_size, t))
      × (ramfs_read fuel t name out max_len ≡ some (max_len, b))
      × ((j : ℕ) → b j ≡ (if ltb j max_len then buf j else out j))
ramfs_read-ramfs_write fuel s before after name buf out cs len max_len h first hn enough long part =
    let i = length before in
    let t = write_file s i buf in
    let sized : (t.ramfs_files i).size ≡ ramfs_max_file_size = rw ((==_iff i i).1 refl) in
    let pointer : (t.ramfs_files i).data_ptr ≡ (s.ramfs_files i).data_ptr =
      rw ((==_iff i i).1 refl) in
    let files : HasFiles t (before ++ cs ∷ after) = record {
      available = h.available;
      counted = h.counted;
      named = Named-write_file s i buf 0 (before ++ cs ∷ after) h.named;
    } in
    (
      t,
      read_file t i out max_len,
      ramfs_write_long fuel s before after name buf cs len h first hn enough long,
      ramfs_read_part fuel t before after name out cs max_len files first hn enough
          (omega (arith, sized)),
      λ j. rw pointer (bytes (s.ramfs_files i).data_ptr j),
    )
  where
    bytes :
        (p j : ℕ)
        → (if ltb j max_len then copy_to s.memory p buf ramfs_max_file_size (p + j) else out j)
          ≡ (if ltb j max_len then buf j else out j)
    bytes p j = ground (arith, ap buf {x = p + j - p} {y = j} (omega arith))
