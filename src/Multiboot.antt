-- ===== src/Multiboot.antt =====
-- inc/multiboot.h: the records of the boot loader that the kernel reads. The memory map is an
-- argument `entry_at` of the code that reads it, from addresses to entries: the loader fills it.
use nika_kernel.Prelude.{ℕ}

-- `multiboot_info_t`, the fields that the kernel reads.
pub record MultibootInfo : Type 0 where
  pub flags : ℕ
  pub mmap_length : ℕ
  pub mmap_addr : ℕ
  pub framebuffer_addr : ℕ
  pub framebuffer_pitch : ℕ
  pub framebuffer_width : ℕ
  pub framebuffer_height : ℕ
  pub framebuffer_bpp : ℕ
  pub framebuffer_type : ℕ

-- `multiboot_memory_map_t`
pub record MmapEntry : Type 0 where
  pub size : ℕ
  pub addr : ℕ
  pub len : ℕ
  pub type : ℕ

abbrev pub bootloader_magic : ℕ
bootloader_magic = 0x2badb002

abbrev pub memory_available : ℕ
memory_available = 1
