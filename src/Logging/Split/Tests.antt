-- ===== src/Logging/Split/Tests.antt =====
-- The fields of two short contents.
use catalogger.Base.{nat_eq, bytes, ◌+◌, ◌≤◌}
use catalogger.Logging.Split.{old_fields, new_fields}
use catalogger.Logging.Split.Bounds.{total, fields-Fits, Fits}

fields-Fits_example :
    (Fits 1024 3506 (old_fields (bytes "before")))
    × (Fits 1024 2025 (new_fields (bytes "after")))
    × (total (old_fields (bytes "before")) + total (new_fields (bytes "after")) ≤ 5531)
fields-Fits_example = fields-Fits (bytes "before") (bytes "after")
