-- ===== src/Protocol/Schema/Typed/Entry.antt =====
-- Maps as lists of entries: reading and writing at a key that is new.
use bit_socket_go.Base.{
  ◌≡◌, ◌≢◌, refl, ap, Text, ◌=?◌, =?_iff, =?_refl, false, Bool-cases, inl, inr,
}
use bit_socket_go.Protocol.Types.{Value, Entries, FieldDefs, no_fields, field, end, entry}
use bit_socket_go.Protocol.Coerce.{get_entry, set_entry}
use bit_socket_go.Protocol.Schema.Typed.{NoField}

abbrev pub append_entries : Entries → Entries → Entries
append_entries end fs = fs
append_entries (entry k v es) fs = entry k v (append_entries es fs)

abbrev pub Absent : Text → Entries → Type 0
Absent k end = Unit {0}
Absent k (entry j v es) = (j ≢ k) × Absent k es

-- None of the fields has an entry yet.
abbrev pub Fresh : FieldDefs → Entries → Type 0
Fresh no_fields es = Unit {0}
Fresh (field k t fs) es = Absent k es × Fresh fs es

=?_ne : (a b : Text) → a ≢ b → (a =? b) ≡ false
=?_ne a b ne = elim (Bool-cases (a =? b)) [ inl e ↦ absurd (ne ((=?_iff a b).0 e)) | inr e ↦ e ]

pub set_entry-Absent :
    (k : Text) (v : Value) (es : Entries)
    → Absent k es
    → set_entry k v es ≡ append_entries es (entry k v end)
unfolding set_entry
set_entry-Absent k v end h = refl
set_entry-Absent k v (entry j w es) h =
    rw (=?_ne j k h.0) (ap (entry j w) (set_entry-Absent k v es h.1))

pub get_entry-append_entries :
    (k : Text) (v : Value) (es fs : Entries)
    → Absent k es
    → get_entry k (append_entries es (entry k v fs)) ≡ v
unfolding get_entry
get_entry-append_entries k v end fs h = rw =?_refl refl
get_entry-append_entries k v (entry j w es) fs h =
    rw (=?_ne j k h.0) (get_entry-append_entries k v es fs h.1)

pub append_entries_step :
    (k : Text) (v : Value) (es fs : Entries)
    → append_entries (append_entries es (entry k v end)) fs ≡ append_entries es (entry k v fs)
append_entries_step k v end fs = refl
append_entries_step k v (entry j w es) fs = ap (entry j w) (append_entries_step k v es fs)

pub append_entries-end : (es : Entries) → append_entries es end ≡ es
append_entries-end end = refl
append_entries-end (entry k v es) = ap (entry k v) (append_entries-end es)

Absent-append_entries :
    (i k : Text) (v : Value) (es : Entries)
    → k ≢ i
    → Absent i es
    → Absent i (append_entries es (entry k v end))
Absent-append_entries i k v end ne h = (ne, tt)
Absent-append_entries i k v (entry j w es) ne h = (h.0, Absent-append_entries i k v es ne h.1)

pub Fresh-append_entries :
    (k : Text) (v : Value) (fs : FieldDefs) (es : Entries)
    → NoField k fs
    → Fresh fs es
    → Fresh fs (append_entries es (entry k v end))
Fresh-append_entries k v no_fields es ne h = tt
Fresh-append_entries k v (field i t fs) es ne h =
    (Absent-append_entries i k v es (λ e. ne.0 (cc)) h.0, Fresh-append_entries k v fs es ne.1 h.1)

pub Fresh-end : (fs : FieldDefs) → Fresh fs end
Fresh-end no_fields = tt
Fresh-end (field k t fs) = (tt, Fresh-end fs)
