-- ===== src/DeepCopy/Cells/Values.antt =====
-- The cells that hold values without pointers.
use k8s_cleaner.Common.{refl, Option, none, some, List, ℕ, String}
use k8s_cleaner.Common.Int.{ℤ}
use k8s_cleaner.Api.{LabelFilter, ObjectReference, Time}
use k8s_cleaner.DeepCopy.Cells.Data.{
  Cell, Kind, int64, text, time, object_reference, strings, bytes, label_filters,
}

abbrev get_int64 : Cell → Option (ℤ)
get_int64 (int64 s) = some s
get_int64 _ = none

abbrev pub int64_cell : Kind (ℤ)
int64_cell = record { wrap = int64; unwrap = get_int64; unwrap-wrap = λ s. refl }

abbrev get_text : Cell → Option (String)
get_text (text s) = some s
get_text _ = none

abbrev pub text_cell : Kind (String)
text_cell = record { wrap = text; unwrap = get_text; unwrap-wrap = λ s. refl }

abbrev get_time : Cell → Option (Time)
get_time (time s) = some s
get_time _ = none

abbrev pub time_cell : Kind (Time)
time_cell = record { wrap = time; unwrap = get_time; unwrap-wrap = λ s. refl }

abbrev get_object_reference : Cell → Option (ObjectReference)
get_object_reference (object_reference s) = some s
get_object_reference _ = none

abbrev pub object_reference_cell : Kind (ObjectReference)
object_reference_cell = record {
  wrap = object_reference;
  unwrap = get_object_reference;
  unwrap-wrap = λ s. refl;
}

abbrev get_strings : Cell → Option (List String)
get_strings (strings s) = some s
get_strings _ = none

abbrev pub strings_cell : Kind (List String)
strings_cell = record { wrap = strings; unwrap = get_strings; unwrap-wrap = λ s. refl }

abbrev get_bytes : Cell → Option (List ℕ)
get_bytes (bytes s) = some s
get_bytes _ = none

abbrev pub bytes_cell : Kind (List ℕ)
bytes_cell = record { wrap = bytes; unwrap = get_bytes; unwrap-wrap = λ s. refl }

abbrev get_label_filters : Cell → Option (List LabelFilter)
get_label_filters (label_filters s) = some s
get_label_filters _ = none

abbrev pub label_filters_cell : Kind (List LabelFilter)
label_filters_cell = record {
  wrap = label_filters;
  unwrap = get_label_filters;
  unwrap-wrap = λ s. refl;
}
