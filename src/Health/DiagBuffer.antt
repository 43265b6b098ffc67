-- ===== src/Health/DiagBuffer.antt =====
-- autoware_health_checker/src/health_checker/diag_buffer.cpp: the statuses of one key, by level, for as
-- long as they are fresh. Times are nanoseconds. std::sort leaves the order of equal stamps open; here
-- they keep theirs. The lock is not modelled: each call is one step.
use autoware_ai_common.Base.{
  Bool, List, Option, String, [], and_then, if◌then◌else◌, keep, leb, ltb, not, null, some, ℕ, ◌++◌,
  ◌+◌, ◌∷◌,
}
use autoware_ai_common.Base.Map.{Map, ascending, assign, lookup, or_else}
use autoware_ai_common.Messages.{DiagLevels, DiagnosticStatus, DiagnosticStatusArray}

pub record DiagBuffer : Type 0 where
  pub type : ℕ
  pub description : String
  pub key : String
  pub buffer_duration : ℕ
  pub buffer : Map ℕ DiagnosticStatusArray

-- BUFFER_DURATION, 0.5 s
abbrev pub buffer_duration_nsec : ℕ
buffer_duration_nsec = 500000000

-- DiagBuffer::DiagBuffer
abbrev pub new_buffer : String → ℕ → String → ℕ → DiagBuffer
new_buffer key type description duration = record {
  type = type;
  description = description;
  key = key;
  buffer_duration = duration;
  buffer = [];
}

-- The statuses of a level; what `buffer_[level]` makes where there is none.
abbrev pub content : ℕ → Map ℕ DiagnosticStatusArray → DiagnosticStatusArray
content level m = or_else (lookup level m) []

abbrev pub is_fresh : ℕ → ℕ → DiagnosticStatus → Bool
is_fresh duration now s = ltb now (s.stamp + duration)

-- DiagBuffer::filterBuffer
unfoldable pub filter_buffer : ℕ → ℕ → ℕ → Map ℕ DiagnosticStatusArray → DiagnosticStatusArray
filter_buffer duration now level m = keep (is_fresh duration now) (content level m)

unfoldable pub update_levels :
    ℕ → ℕ → List ℕ → Map ℕ DiagnosticStatusArray → Map ℕ DiagnosticStatusArray
update_levels duration now [] m = m
update_levels duration now (level ∷ levels) m =
    update_levels duration now levels (assign level (filter_buffer duration now level m) m)

abbrev pub all_levels : DiagLevels → List ℕ
all_levels lv = lv.fatal ∷ lv.error ∷ lv.warn ∷ lv.ok ∷ lv.undefined ∷ []

-- DiagBuffer::updateBuffer
unfoldable pub update_buffer : DiagLevels → ℕ → DiagBuffer → DiagBuffer
unfolding update_levels
update_buffer lv now b = record b {
  buffer = update_levels b.buffer_duration now (all_levels lv) b.buffer;
}

-- DiagBuffer::addDiag
unfoldable pub add_diag : DiagLevels → ℕ → DiagnosticStatus → DiagBuffer → DiagBuffer
add_diag lv now s b =
    update_buffer lv now
      (record b { buffer = assign s.level (content s.level b.buffer ++ s ∷ []) b.buffer })

-- std::sort with isOlderTimestamp
unfoldable pub insert_by_stamp : DiagnosticStatus → DiagnosticStatusArray → DiagnosticStatusArray
insert_by_stamp s [] = s ∷ []
insert_by_stamp s (x ∷ xs) = if leb s.stamp x.stamp then s ∷ x ∷ xs else x ∷ insert_by_stamp s xs

unfoldable pub sort_by_stamp : DiagnosticStatusArray → DiagnosticStatusArray
unfolding insert_by_stamp
sort_by_stamp [] = []
sort_by_stamp (x ∷ xs) = insert_by_stamp x (sort_by_stamp xs)

-- The loop of getAndClearData, whose `at` throws on a missing level.
unfoldable pub collect :
    List ℕ → Map ℕ DiagnosticStatusArray → DiagnosticStatusArray → Option DiagnosticStatusArray
collect [] m acc = some acc
collect (level ∷ levels) m acc = and_then (lookup level m) (λ xs. collect levels m (acc ++ xs))

-- DiagBuffer::getAndClearData
unfoldable pub get_and_clear_data :
    DiagLevels → ℕ → DiagBuffer → Option (DiagnosticStatusArray × DiagBuffer)
unfolding sort_by_stamp
get_and_clear_data lv now b =
    let c = update_buffer lv now b in
    and_then (collect (all_levels lv) c.buffer [])
      (λ xs. some (sort_by_stamp xs, record c { buffer = [] }))

unfoldable pub first_level : List ℕ → Map ℕ DiagnosticStatusArray → ℕ → Option ℕ
first_level [] m default = some default
first_level (level ∷ levels) m default =
    let rest = first_level levels m default in
    and_then (lookup level m) (λ xs. if not (null xs) then some level else rest)

-- DiagBuffer::getErrorLevel
unfoldable pub get_error_level : DiagLevels → ℕ → DiagBuffer → Option (ℕ × DiagBuffer)
unfolding first_level
get_error_level lv now b =
    let c = update_buffer lv now b in
    and_then (first_level (lv.fatal ∷ lv.error ∷ lv.warn ∷ lv.ok ∷ []) c.buffer lv.ok)
      (λ level. some (level, c))

-- Additions, each at its time.
unfoldable pub add_all_diags : DiagLevels → List (ℕ × DiagnosticStatus) → DiagBuffer → DiagBuffer
add_all_diags lv [] b = b
add_all_diags lv ((t, s) ∷ es) b = add_all_diags lv es (add_diag lv t s b)
