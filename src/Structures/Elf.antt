-- ===== src/Structures/Elf.antt =====
-- The section and symbol lookups of src/structures/elf.cpp. The memory is read as section headers and as
-- symbols at addresses; pointers are addresses, and a text is the address of its first character.
pub mod Nearest
mod Tests
use Prim.Native.Nat.{bit_and}
use cantos.Prelude.{
  ℕ, zero, suc, ◌+◌, ◌-◌, ◌*◌, ◌/◌, ◌%◌, ◌^◌, Bool, true, false, not, ◌&&◌, Option, none, some, ltb,
  leb, ◌==◌, if◌then◌else◌, add32, sub32, mul32,
}

pub record Header : Type 0 where
  pub at : ℕ
  pub shoff : ℕ
  pub shentsize : ℕ
  pub shnum : ℕ
  pub shstrndx : ℕ

pub record SectionHeader : Type 0 where
  pub name : ℕ
  pub type : ℕ
  pub flags : ℕ
  pub addr : ℕ
  pub offset : ℕ
  pub size : ℕ
  pub link : ℕ
  pub info : ℕ
  pub addralign : ℕ
  pub entsize : ℕ

pub record Symbol : Type 0 where
  pub name : ℕ
  pub value : ℕ
  pub size : ℕ
  pub info : ℕ
  pub other : ℕ
  pub shndx : ℕ

pub record Memory : Type 0 where
  pub section : ℕ → SectionHeader
  pub symbol : ℕ → Symbol

-- What a lookup comes to: a trap of the processor (a division by zero, or a NULL pointer that is
-- followed), or a value.
pub data Lookup (A : Type 0) : Type 0 where
  trap : Lookup A
  value : A → Lookup A

infixl 5 ◌>>=◌
abbrev pub ◌>>=◌ : {A B : Type 0} → Lookup A → (A → Lookup B) → Lookup B
trap >>= k = trap
value a >>= k = k a

abbrev pub null : ℕ
null = 0

abbrev pub sht_symtab : ℕ
sht_symtab = 2

abbrev pub sizeof_header : ℕ
sizeof_header = 52

abbrev pub kernel_vm_base : ℕ
kernel_vm_base = 0xc0000000

abbrev pub section_header : Header → ℕ → ℕ
section_header h id = add32 (add32 h.at h.shoff) (mul32 id h.shentsize)

abbrev pub section_string_section : Header → ℕ
section_string_section h = section_header h h.shstrndx

abbrev pub section_data : Memory → Header → ℕ → ℕ
section_data m h id = add32 h.at (m.section (section_header h id)).offset

abbrev pub runtime_section_data : Memory → Header → ℕ → ℕ
runtime_section_data m h id = (m.section (section_header h id)).addr

abbrev pub section_string_section_data : Memory → Header → ℕ
section_string_section_data m h = section_data m h h.shstrndx

abbrev pub runtime_section_string_section_data : Memory → Header → ℕ
runtime_section_string_section_data m h = runtime_section_data m h h.shstrndx

abbrev pub lookup_string : Memory → Header → ℕ → ℕ → ℕ
lookup_string m h section offset = add32 (section_data m h section) offset

abbrev pub runtime_lookup_string : Memory → Header → ℕ → ℕ → ℕ
runtime_lookup_string m h section offset = add32 (runtime_section_data m h section) offset

abbrev pub lookup_section_string : Memory → Header → ℕ → ℕ
lookup_section_string m h offset = lookup_string m h h.shstrndx offset

abbrev pub runtime_lookup_section_string : Memory → Header → ℕ → ℕ
runtime_lookup_section_string m h offset = runtime_lookup_string m h h.shstrndx offset

abbrev pub has_type : Memory → Header → ℕ → ℕ → Bool
has_type m h type id = (m.section (section_header h id)).type == type

-- The loop of sectionByType, with `n` rounds before shnum.
pub skip_sections : Memory → Header → ℕ → ℕ → ℕ → ℕ
skip_sections m h type base zero = base
skip_sections m h type base (suc n) =
    let rest = skip_sections m h type (base + 1) n in if has_type m h type base then base else rest

pub section_by_type : Memory → Header → ℕ → ℕ → ℕ
unfolding skip_sections
section_by_type m h type base =
    let id = skip_sections m h type base (h.shnum - base) in if has_type m h type id then id else 0

pub entries : SectionHeader → Lookup ℕ
entries s = if s.entsize == 0 then trap else value (s.size / s.entsize)

-- The pointer to an entry of a table at `data`.
abbrev pub entry_at : SectionHeader → ℕ → ℕ → Lookup ℕ
entry_at s data_at offset =
    entries s >>= λ n. value (if leb n offset then null else add32 data_at (mul32 offset s.entsize))

pub symbol : Memory → Header → ℕ → ℕ → Lookup ℕ
unfolding entries
symbol m h section offset =
    entry_at (m.section (section_header h section)) (section_data m h section) offset

pub runtime_symbol : Memory → Header → ℕ → ℕ → Lookup ℕ
unfolding entries
runtime_symbol m h section offset =
    entry_at (m.section (section_header h section)) (runtime_section_data m h section) offset

abbrev pub follow : Memory → ℕ → Lookup Symbol
follow m a = if a == null then trap else value (m.symbol a)

pub symbol_name : Memory → Header → ℕ → ℕ → Lookup ℕ
unfolding symbol
symbol_name m h section offset = symbol m h section offset >>= λ a.
    follow m a >>= λ s. value (lookup_string m h (m.section (section_header h section)).link s.name)

pub runtime_symbol_name : Memory → Header → ℕ → ℕ → Lookup ℕ
unfolding runtime_symbol
runtime_symbol_name m h section offset = runtime_symbol m h section offset >>= λ a.
    follow m a >>= λ s.
    value (runtime_lookup_string m h (m.section (section_header h section)).link s.name)

-- best_id and delta.
pub record Best : Type 0 where
  pub id : ℕ
  pub delta : ℕ

abbrev pub better : ℕ → ℕ → ℕ → Symbol → Best → Best
better addr type i s b =
    if not (s.info == type)
    then b
    else if leb s.value addr && ltb (addr - s.value) b.delta
    then record { id = i; delta = addr - s.value }
    else b

-- The loop of runtimeFindSymbolId, `n` rounds from round `i` on.
pub find_from : Memory → Header → ℕ → ℕ → ℕ → ℕ → ℕ → Best → Lookup Best
unfolding runtime_symbol
find_from m h section addr type i zero b = value b
find_from m h section addr type i (suc n) b =
    (runtime_symbol m h section i >>= λ a. follow m a) >>= λ s.
    find_from m h section addr type (i + 1) n (better addr type i s b)

-- The search in the section that sectionByType gives.
pub find_in : Memory → Header → ℕ → ℕ → ℕ → Lookup Best
unfolding find_from entries
find_in m h section addr type = entries (m.section (section_header h section)) >>= λ n.
    find_from m h section addr type 0 n (record { id = 0; delta = 0xffffffff })

pub runtime_find_symbol_id : Memory → Header → ℕ → ℕ → Lookup ℕ
unfolding find_in section_by_type
runtime_find_symbol_id m h addr type =
    find_in m h (section_by_type m h sht_symtab 0) addr type >>= λ b. value b.id

pub runtime_find_symbol : Memory → Header → ℕ → ℕ → Lookup ℕ
unfolding runtime_find_symbol_id
runtime_find_symbol m h addr type = runtime_find_symbol_id m h addr type >>= λ id.
    runtime_symbol m h (section_by_type m h sht_symtab 0) id

pub runtime_find_symbol_name : Memory → Header → ℕ → ℕ → Lookup ℕ
unfolding runtime_find_symbol_id runtime_symbol_name
runtime_find_symbol_name m h addr type = runtime_find_symbol_id m h addr type >>= λ id.
    runtime_symbol_name m h (section_by_type m h sht_symtab 0) id

abbrev pub st_bind : ℕ → ℕ
st_bind x = x * 2 ^ 4 % 2 ^ 8

abbrev pub st_type : ℕ → ℕ
st_type x = bit_and x 0xf

abbrev pub st_info : ℕ → ℕ → ℕ
st_info b t = (st_bind b + st_type t) % 2 ^ 8

abbrev pub relocated : SectionHeader → SectionHeader
relocated s =
    if not (s.addr == 0) && ltb s.addr kernel_vm_base
    then record s { addr = add32 s.addr kernel_vm_base }
    else s

-- The copy of the headers to `target`, each with its address updated: `n` from header `i` on.
pub copy_headers : ℕ → ℕ → ℕ → ℕ → ℕ → Memory → Memory
copy_headers source target size i zero m = m
copy_headers source target size i (suc n) m = copy_headers source target size (i + 1) n (record m {
  section = λ a.
      if a == add32 target (mul32 i size)
      then relocated (m.section (add32 source (mul32 i size)))
      else m.section a;
})

-- load_kernel_elf; `at` is what kmalloc gives.
pub load_kernel_elf : ℕ → ℕ → ℕ → ℕ → ℕ → Memory → Header × Memory
unfolding copy_headers
load_kernel_elf at num size addr shndx m = (
  record {
    at = at;
    shoff = sizeof_header;
    shentsize = size % 2 ^ 16;
    shnum = num % 2 ^ 16;
    shstrndx = shndx % 2 ^ 16;
  },
  copy_headers addr (add32 at sizeof_header) size 0 num m,
)
