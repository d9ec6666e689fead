-- ===== src/Fat12/Content/Chain.antt =====
-- The clusters of a file and the bytes that they hold.
use lazy_os.Prelude.{ℕ, ◌+◌, ◌-◌, ◌%◌, ◌<◌, ◌≤◌, ◌≡◌, ◌≢◌, false, arith, within, List, [], ◌∷◌}
use lazy_os.Fat12.{end_of_file, sector_size, starting_data_sector}
use lazy_os.Fat12.Content.{cluster_start}

-- No cluster of the list is `c`, and the byte `a` is in none of them.
abbrev pub Fresh : (c : ℕ) → List ℕ → Type 0
Fresh c [] = Unit
Fresh c (c' ∷ cs) = (c ≢ c') × Fresh c cs

abbrev pub Away : (a : ℕ) → List ℕ → Type 0
Away a [] = Unit
Away a (c ∷ cs) = (within (cluster_start c) sector_size a ≡ false) × Away a cs

-- The clusters of a file of `size` bytes: `c`, then those of the list, all different and on a disk of
-- `sectors` sectors.
abbrev pub IsFile : (table : ℕ → ℕ) → (sectors : ℕ) → (c : ℕ) → List ℕ → (size : ℕ) → Type 0
IsFile table sectors c [] size =
    (table c ≡ end_of_file) × (c + starting_data_sector < sectors) × (size ≤ sector_size)
IsFile table sectors c (c' ∷ cs) size =
    (table c ≡ c')
    × (c' ≢ end_of_file)
    × (c + starting_data_sector < sectors)
    × (sector_size < size)
    × Fresh c (c' ∷ cs)
    × IsFile table sectors c' cs (size - sector_size)

-- The clusters hold the `size` bytes of `content` from `src` on.
abbrev pub Holds : (bytes : ℕ → ℕ) → (c : ℕ) → List ℕ → (content : ℕ → ℕ) → (src size : ℕ) → Type 0
Holds bytes c [] content src size =
    (i : ℕ) → i < size → bytes (cluster_start c + i) ≡ content (src + i) % 256
Holds bytes c (c' ∷ cs) content src size =
    ((i : ℕ) → i < sector_size → bytes (cluster_start c + i) ≡ content (src + i) % 256)
    × Holds bytes c' cs content (src + sector_size) (size - sector_size)

-- A byte of one cluster is in no other.
pub Fresh-Away :
    (c : ℕ) (cs : List ℕ) (i : ℕ) → i < sector_size → Fresh c cs → Away (cluster_start c + i) cs
Fresh-Away c [] i h fresh = tt
Fresh-Away c (c' ∷ cs) i h (apart, fresh) =
    let out : within (cluster_start c') sector_size (cluster_start c + i) ≡ false = ground arith in
    (out, Fresh-Away c cs i h fresh)

pub IsFile-inside :
    (table : ℕ → ℕ) (sectors c : ℕ) (cs : List ℕ) (size : ℕ)
    → IsFile table sectors c cs size
    → c + starting_data_sector < sectors
IsFile-inside table sectors c [] size file = file.1
IsFile-inside table sectors c (c' ∷ cs) size file = file.2
