-- ===== src/Boot/Texts.antt =====
-- The texts of core/init.c and of the macros of inc/vga.h, as lists of characters and as strings.
use nika_kernel.Prelude.{ℕ, List, [], ◌∷◌, get_or}
use nika_kernel.CString.{Buffer}

-- The string of a text.
abbrev pub string : List ℕ → Buffer
string cs j = get_or cs j 0

abbrev pub info_format : List ℕ
info_format = b'[' ∷ b'I' ∷ b'N' ∷ b'F' ∷ b'O' ∷ b']' ∷ b' ' ∷ b'%' ∷ b's' ∷ []

abbrev pub warn_format : List ℕ
warn_format = b'[' ∷ b'W' ∷ b'A' ∷ b'R' ∷ b'N' ∷ b']' ∷ b' ' ∷ []

abbrev pub pmm_error : List ℕ
pmm_error =
    b'E' ∷ b'r' ∷ b'r' ∷ b'o' ∷ b'r' ∷ b' ' ∷ b't' ∷ b'o' ∷ b' ' ∷ b'i' ∷ b'n' ∷ b'i' ∷ b't' ∷ b'i'
    ∷ b'a' ∷ b'l' ∷ b'i' ∷ b'z' ∷ b'e' ∷ b' ' ∷ b't' ∷ b'h' ∷ b'e' ∷ b' ' ∷ b'P' ∷ b'M' ∷ b'M'
    ∷ b'\n' ∷ []

abbrev pub mapping_vga : List ℕ
mapping_vga =
    b'M' ∷ b'a' ∷ b'p' ∷ b'i' ∷ b'n' ∷ b'g' ∷ b' ' ∷ b'V' ∷ b'G' ∷ b'A' ∷ b' ' ∷ b'm' ∷ b'e' ∷ b'm'
    ∷ b'o' ∷ b'r' ∷ b'y' ∷ b' ' ∷ b't' ∷ b'o' ∷ b' ' ∷ b'v' ∷ b'i' ∷ b'r' ∷ b't' ∷ b'u' ∷ b'a'
    ∷ b'l' ∷ b' ' ∷ b'c' ∷ b'o' ∷ b'n' ∷ b't' ∷ b'e' ∷ b'x' ∷ b't' ∷ b'\n' ∷ []

abbrev pub done_text : List ℕ
done_text = b'S' ∷ b'u' ∷ b'c' ∷ b'c' ∷ b'e' ∷ b's' ∷ b's' ∷ b'!' ∷ b'\n' ∷ []

abbrev pub heap_text : List ℕ
heap_text =
    b'I' ∷ b'n' ∷ b'i' ∷ b't' ∷ b'i' ∷ b'a' ∷ b'l' ∷ b'i' ∷ b'z' ∷ b'i' ∷ b'n' ∷ b'g' ∷ b' ' ∷ b'h'
    ∷ b'e' ∷ b'a' ∷ b'p' ∷ b'\n' ∷ []

abbrev pub keyboard_text : List ℕ
keyboard_text =
    b'I' ∷ b'n' ∷ b'i' ∷ b't' ∷ b'i' ∷ b'a' ∷ b'l' ∷ b'i' ∷ b'z' ∷ b'i' ∷ b'n' ∷ b'g' ∷ b' ' ∷ b'k'
    ∷ b'e' ∷ b'y' ∷ b'b' ∷ b'o' ∷ b'a' ∷ b'r' ∷ b'd' ∷ b' ' ∷ b'd' ∷ b'e' ∷ b'v' ∷ b'i' ∷ b'c'
    ∷ b'e' ∷ b'\n' ∷ []

abbrev pub mouse_text : List ℕ
mouse_text =
    b'I' ∷ b'n' ∷ b'i' ∷ b't' ∷ b'i' ∷ b'a' ∷ b'l' ∷ b'i' ∷ b'z' ∷ b'i' ∷ b'n' ∷ b'g' ∷ b' ' ∷ b'm'
    ∷ b'o' ∷ b'u' ∷ b's' ∷ b'e' ∷ b' ' ∷ b'd' ∷ b'e' ∷ b'v' ∷ b'i' ∷ b'c' ∷ b'e' ∷ b'\n' ∷ []

abbrev pub video_text : List ℕ
video_text =
    b'I' ∷ b'n' ∷ b'i' ∷ b't' ∷ b'i' ∷ b'a' ∷ b'l' ∷ b'i' ∷ b'z' ∷ b'i' ∷ b'n' ∷ b'g' ∷ b' ' ∷ b'v'
    ∷ b'i' ∷ b'd' ∷ b'e' ∷ b'o' ∷ b' ' ∷ b'd' ∷ b'r' ∷ b'i' ∷ b'v' ∷ b'e' ∷ b'r' ∷ b'(' ∷ b'B'
    ∷ b'I' ∷ b'O' ∷ b'S' ∷ b' ' ∷ b'M' ∷ b'o' ∷ b'd' ∷ b'e' ∷ b')' ∷ b'\n' ∷ []

abbrev pub pci_text : List ℕ
pci_text =
    b'I' ∷ b'n' ∷ b'i' ∷ b't' ∷ b'i' ∷ b'a' ∷ b'l' ∷ b'i' ∷ b'z' ∷ b'i' ∷ b'n' ∷ b'g' ∷ b' ' ∷ b'P'
    ∷ b'C' ∷ b'I' ∷ b' ' ∷ b'S' ∷ b'u' ∷ b'b' ∷ b's' ∷ b'y' ∷ b's' ∷ b't' ∷ b'e' ∷ b'm' ∷ b'\n' ∷ []

abbrev pub fork_text : List ℕ
fork_text =
    b'I' ∷ b'n' ∷ b'i' ∷ b't' ∷ b'i' ∷ b'a' ∷ b'l' ∷ b'i' ∷ b'z' ∷ b'i' ∷ b'n' ∷ b'g' ∷ b' ' ∷ b'f'
    ∷ b'o' ∷ b'r' ∷ b'k' ∷ b'\n' ∷ []

abbrev pub ramfs_text : List ℕ
ramfs_text =
    b'I' ∷ b'n' ∷ b'i' ∷ b't' ∷ b'i' ∷ b'a' ∷ b'l' ∷ b'i' ∷ b'z' ∷ b'i' ∷ b'n' ∷ b'g' ∷ b' ' ∷ b'R'
    ∷ b'A' ∷ b'M' ∷ b' ' ∷ b'F' ∷ b'i' ∷ b'l' ∷ b'e' ∷ b'S' ∷ b'y' ∷ b's' ∷ b't' ∷ b'e' ∷ b'm'
    ∷ b'\n' ∷ []

abbrev pub fault_text : List ℕ
fault_text =
    b'[' ∷ b'S' ∷ b'Y' ∷ b'S' ∷ b'B' ∷ b'O' ∷ b'O' ∷ b'T' ∷ b']' ∷ b' ' ∷ b'F' ∷ b'a' ∷ b'u' ∷ b'l'
    ∷ b't' ∷ b' ' ∷ b't' ∷ b'o' ∷ b' ' ∷ b'i' ∷ b'n' ∷ b'i' ∷ b't' ∷ b' ' ∷ b'k' ∷ b'e' ∷ b'r'
    ∷ b'n' ∷ b'e' ∷ b'l' ∷ b'\n' ∷ []

abbrev pub booted_text : List ℕ
booted_text =
    b'K' ∷ b'e' ∷ b'r' ∷ b'n' ∷ b'e' ∷ b'l' ∷ b' ' ∷ b'j' ∷ b'u' ∷ b's' ∷ b't' ∷ b' ' ∷ b'b' ∷ b'o'
    ∷ b'o' ∷ b't' ∷ b'e' ∷ b'd' ∷ b' ' ∷ b's' ∷ b'u' ∷ b'c' ∷ b'c' ∷ b'e' ∷ b's' ∷ b's' ∷ b'f'
    ∷ b'u' ∷ b'l' ∷ b'l' ∷ b'y' ∷ b'!' ∷ b'\n' ∷ []

abbrev pub paging_text : List ℕ
paging_text =
    b'A' ∷ b'c' ∷ b't' ∷ b'i' ∷ b'v' ∷ b'a' ∷ b't' ∷ b'i' ∷ b'n' ∷ b'g' ∷ b' ' ∷ b'p' ∷ b'a' ∷ b'g'
    ∷ b'i' ∷ b'n' ∷ b'g' ∷ b'.' ∷ b'.' ∷ b'.' ∷ b'\n' ∷ []

abbrev pub ramfs_ready : List ℕ
ramfs_ready =
    b'R' ∷ b'O' ∷ b'O' ∷ b'T' ∷ b':' ∷ b' ' ∷ b'R' ∷ b'A' ∷ b'M' ∷ b'F' ∷ b'S' ∷ b' ' ∷ b'i' ∷ b'n'
    ∷ b'i' ∷ b't' ∷ b'i' ∷ b'a' ∷ b'l' ∷ b'i' ∷ b'z' ∷ b'e' ∷ b'd' ∷ b'!' ∷ b'\n' ∷ []

abbrev pub mounting_text : List ℕ
mounting_text =
    b'M' ∷ b'o' ∷ b'u' ∷ b'n' ∷ b't' ∷ b'i' ∷ b'n' ∷ b'g' ∷ b' ' ∷ b'r' ∷ b':' ∷ b'\n' ∷ []

abbrev pub mounted_text : List ℕ
mounted_text =
    b'M' ∷ b'o' ∷ b'u' ∷ b'n' ∷ b't' ∷ b'e' ∷ b'd' ∷ b' ' ∷ b'r' ∷ b':' ∷ b' ' ∷ b'a' ∷ b't' ∷ b' '
    ∷ b'R' ∷ b'A' ∷ b'M' ∷ b' ' ∷ b'(' ∷ b'R' ∷ b'o' ∷ b'o' ∷ b't' ∷ b' ' ∷ b'd' ∷ b'i' ∷ b'r'
    ∷ b')' ∷ b'\n' ∷ []
