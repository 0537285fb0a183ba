-- ===== src/Vmm/Pages.antt =====
-- The pages of the 48-bit address space, whose translations and flags their last-level entries decide.
use os_kernel.Base.{
  ℕ, ◌+◌, ◌*◌, ◌/◌, ◌%◌, ◌^◌, ◌<◌, ◌≡◌, inl, inr, refl, arith, Bool-cases, some, Option, ap, ◌∙◌,
  bit_and, sym,
}
use os_kernel.Types.{page_size, align_down}
use os_kernel.Types.Align.{align_down_page}
use os_kernel.Pmm.{State}
use os_kernel.Vmm.{Vmm, pte_addr_mask, is_present, page_offset, vmm_translate}
use os_kernel.Vmm.Entry.{make_entry, is_present-make_entry, bit_and-make_entry, bit_or_offset}
use os_kernel.Vmm.Tree.{Role, IsTree, prefix, leaf}
use os_kernel.Vmm.Translate.{translation, vmm_translate-leaf}
use os_kernel.Vmm.Print.{entry_flags}
use os_kernel.Vmm.Flags.{page_flags, page_flags-leaf}
use os_kernel.Vmm.Mapped.{counted}

-- The page of `va` in the 48-bit address space, which the walk looks at.
abbrev pub page_number : ℕ → ℕ
page_number va = va / 4096 % 2 ^ 36

pub page_number-align_down : (va : ℕ) → prefix 0 (align_down va page_size) ≡ page_number va
page_number-align_down va = omega (arith, align_down_page va)

pub pml4-counted : (e : ℕ) (vmm : Vmm) → (counted e vmm).pml4 ≡ vmm.pml4
pml4-counted e vmm = elim (Bool-cases (is_present e)) [
  | inl there ↦ rw there refl
  | inr absent ↦ rw absent refl
]

-- Where the last-level entry of `va` is the same, so is its translation.
pub translate-same :
    (vmm vmm' : Vmm) {s t : State} {role role' : Role} {root : ℕ} (va b : ℕ)
    → (tree : IsTree role root s) → (tree' : IsTree role' root t) → vmm.pml4 ≡ some (root * 4096)
    → vmm'.pml4 ≡ some (root * 4096)
    → leaf t 3 root va ≡ leaf s 3 root va
    → vmm_translate vmm va s ≡ some (b, s)
    → vmm_translate vmm' va t ≡ some (b, t)
translate-same vmm vmm' {s} {t} {root = root} va b tree tree' at at' same old =
    vmm_translate-leaf tree' vmm' va at' ∙ ap (λ z. some (z, t)) (after ∙ before)
  where
    after :
        translation (leaf t 3 root va) (page_offset va)
        ≡ translation (leaf s 3 root va) (page_offset va)
    after = ap (λ e. translation e (page_offset va)) same

    before : translation (leaf s 3 root va) (page_offset va) ≡ b
    before = result (sym (vmm_translate-leaf tree vmm va at) ∙ old)
      where
        result : {x y : ℕ} → ◌≡◌ {A = Option (ℕ × State)} (some (x, s)) (some (y, s)) → x ≡ y
        result e = cc

-- and so are its flags
pub flags-same :
    (vmm vmm' : Vmm) {s t : State} {role role' : Role} {root : ℕ} (va b : ℕ)
    → (tree : IsTree role root s) → (tree' : IsTree role' root t) → vmm.pml4 ≡ some (root * 4096)
    → vmm'.pml4 ≡ some (root * 4096)
    → leaf t 3 root va ≡ leaf s 3 root va
    → page_flags vmm va s ≡ some (b, s)
    → page_flags vmm' va t ≡ some (b, t)
flags-same vmm vmm' {s} {t} {root = root} va b tree tree' at at' same old =
    page_flags-leaf tree' vmm' va at' ∙ ap (λ z. some (z, t)) (ap entry_flags same ∙ before)
  where
    before : entry_flags (leaf s 3 root va) ≡ b
    before = result (sym (page_flags-leaf tree vmm va at) ∙ old)
      where
        result : {x y : ℕ} → ◌≡◌ {A = Option (ℕ × State)} (some (x, s)) (some (y, s)) → x ≡ y
        result e = cc

pub translation-make_entry :
    (a flags off : ℕ)
    → bit_and flags pte_addr_mask ≡ 0
    → off < 4096
    → translation (make_entry a flags) off ≡ a / 4096 % 2 ^ 40 * 4096 + off
unfolding translation
translation-make_entry a flags off h lt =
    rw (is_present-make_entry a flags, bit_and-make_entry a flags h) (bit_or_offset a off lt)
