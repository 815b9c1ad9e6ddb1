-- ===== src/Pipe/Lines.antt =====
-- The lines of the protocol (src/named_pipe.rs): what the byte loop of `read` makes of a chunk.
use v9_worker.Base.{
  ==_iff, ap, ℕ, ◌≡◌, sym, ◌∙◌, inl, inr, false, [], ◌∷◌, ◌++◌, append-nil, append_assoc, arith,
  ◌==◌, Bool-cases, Text,
}
use v9_worker.Pipe.{ℕ, ◌++◌, Text, has_newline, scan_line, Scan, complete, partial, newline}

-- A text that ends with its only newline.
abbrev pub IsLine : Text → Type 0
IsLine t = (body : Text) × (t ≡ body ++ newline ∷ []) × (has_newline body ≡ false)

-- What a scan of `received` after `result` is: a whole line and what it leaves over, or all of it.
abbrev pub Scans : Text → Text → Scan → Type 0
Scans result received (complete line) =
    IsLine line × (extra : Text) × (result ++ received ≡ line ++ extra)
Scans result received (partial result') =
    (result' ≡ result ++ received) × (has_newline result' ≡ false)

has_newline-append :
    (s : Text) (b : ℕ)
    → has_newline s ≡ false
    → (b == newline) ≡ false
    → has_newline (s ++ b ∷ []) ≡ false
unfolding has_newline
has_newline-append [] b h k = ground arith
has_newline-append (c ∷ s) b h k = ground (arith, has_newline-append s b)

pub scan_line-Scans :
    (result received : Text)
    → has_newline result ≡ false
    → Scans result received (scan_line result received)
unfolding scan_line
scan_line-Scans result [] h = (sym (append-nil result), h)
scan_line-Scans result (v ∷ vs) h = elim (Bool-cases (v == newline)) [
  | inl ends ↦
      rw (ends, scan_line)
        (
          (result, ap (λ (b : ℕ). result ++ b ∷ []) ((==_iff v newline).0 ends), h),
          vs,
          sym (append_assoc result (v ∷ []) vs),
        )
  | inr other ↦
      rw (other, scan_line)
        (regroup (scan_line (result ++ v ∷ []) vs)
          (scan_line-Scans (result ++ v ∷ []) vs (has_newline-append result v h other)))
]
  where
    regroup : (r : Scan) → Scans (result ++ v ∷ []) vs r → Scans result (v ∷ vs) r
    regroup (complete line) (is_line, extra, e) =
        (is_line, extra, sym (append_assoc result (v ∷ []) vs) ∙ e)
    regroup (partial result') (e, none_yet) = (e ∙ append_assoc result (v ∷ []) vs, none_yet)
