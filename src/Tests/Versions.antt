-- ===== src/Tests/Versions.antt =====
-- Concrete inputs for the theorem on build versions.
use wowdoc.Base.{◌+◌, ◌*◌, ◌≡◌, arith}
use wowdoc.Strings.Decimal.{decimal}
use wowdoc.Indexer.Version.{build_interface_from_version}
use wowdoc.Indexer.Version.Printed.{printed, build_interface_from_version-printed}

build_interface_from_version-printed_example :
    build_interface_from_version (printed 12 1 0 (decimal 69814))
    ≡ decimal (12 * 10000 + 1 * 100 + 0)
build_interface_from_version-printed_example =
    build_interface_from_version-printed 12 1 0 69814 (omega arith)
