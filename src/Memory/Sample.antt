-- ===== src/Memory/Sample.antt =====
-- A small machine for the tests, with one zone of 100 pages, of which the first 3 are in use.
use s_os.Base.{◌*◌, ◌^◌, ◌==◌, if◌then◌else◌}
use s_os.Memory.{Memory}

abbrev pub machine : Memory
machine = record {
  bits_map = λ w. if w == 0 then 7 else 0;
  pages_struct =
      λ q. record { zone_struct = 0; phy_address = q * 2 ^ 21; attribute = 0; reference_count = 0 };
  zones_struct = λ z. record {
    zone_start_address = 0;
    zone_end_address = 99 * 2 ^ 21;
    page_using_count = 3;
    page_free_count = 97;
    total_pages_link = 3;
  };
  zones_size = 1;
  zone_dma_index = 0;
  zone_normal_index = 0;
  zone_unmaped_index = 1;
}
