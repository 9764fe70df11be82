-- ===== src/CharMap/Tables.antt =====
-- The tables of libtnX/transmaps.h, and `tnX_transmaps`, the index of them by name.
mod Pages37
mod Pages278
mod Pages297
mod Pages905
mod Pages424
use linux_sna.Base.{[], ◌∷◌, List, codes}
use linux_sna.CharMap.{CharMap}
pub use linux_sna.CharMap.Tables.Pages37.{
  iso_8859_1_to_ibm037, ibm037_to_iso_8859_1, iso_8859_1_to_ibm256, ibm256_to_iso_8859_1,
  iso_8859_1_to_ibm273, ibm273_to_iso_8859_1, iso_8859_1_to_ibm277, ibm277_to_iso_8859_1,
}
pub use linux_sna.CharMap.Tables.Pages278.{
  iso_8859_1_to_ibm278, ibm278_to_iso_8859_1, iso_8859_1_to_ibm280, ibm280_to_iso_8859_1,
  iso_8859_1_to_ibm284, ibm284_to_iso_8859_1, iso_8859_1_to_ibm285, ibm285_to_iso_8859_1,
}
pub use linux_sna.CharMap.Tables.Pages297.{
  iso_8859_1_to_ibm297, ibm297_to_iso_8859_1, iso_8859_1_to_ibm500, ibm500_to_iso_8859_1,
  iso_8859_1_to_ibm871, ibm871_to_iso_8859_1, iso_8859_2_to_ibm870, ibm870_to_iso_8859_2,
}
pub use linux_sna.CharMap.Tables.Pages905.{
  iso_8859_3_to_ibm905, ibm905_to_iso_8859_3, iso_8859_5_to_ibm880, ibm880_to_iso_8859_5,
  iso_8859_6_to_ibm420, ibm420_to_iso_8859_6, iso_8859_7_to_ibm875, ibm875_to_iso_8859_7,
}
pub use linux_sna.CharMap.Tables.Pages424.{
  iso_8859_8_to_ibm424, ibm424_to_iso_8859_8, iso_8859_9_to_ibm1026, ibm1026_to_iso_8859_9,
  jis_x0201_to_ibm290, ibm290_to_jis_x0201,
}

-- tnX_transmaps, up to the entry with no name
abbrev pub transmaps : List CharMap
transmaps =
    record {
      name = codes "37";
      to_remote_map = iso_8859_1_to_ibm037;
      to_local_map = ibm037_to_iso_8859_1;
    }
    ∷ record {
      name = codes "256";
      to_remote_map = iso_8859_1_to_ibm256;
      to_local_map = ibm256_to_iso_8859_1;
    }
    ∷ record {
      name = codes "273";
      to_remote_map = iso_8859_1_to_ibm273;
      to_local_map = ibm273_to_iso_8859_1;
    }
    ∷ record {
      name = codes "277";
      to_remote_map = iso_8859_1_to_ibm277;
      to_local_map = ibm277_to_iso_8859_1;
    }
    ∷ record {
      name = codes "278";
      to_remote_map = iso_8859_1_to_ibm278;
      to_local_map = ibm278_to_iso_8859_1;
    }
    ∷ record {
      name = codes "280";
      to_remote_map = iso_8859_1_to_ibm280;
      to_local_map = ibm280_to_iso_8859_1;
    }
    ∷ record {
      name = codes "284";
      to_remote_map = iso_8859_1_to_ibm284;
      to_local_map = ibm284_to_iso_8859_1;
    }
    ∷ record {
      name = codes "285";
      to_remote_map = iso_8859_1_to_ibm285;
      to_local_map = ibm285_to_iso_8859_1;
    }
    ∷ record {
      name = codes "297";
      to_remote_map = iso_8859_1_to_ibm297;
      to_local_map = ibm297_to_iso_8859_1;
    }
    ∷ record {
      name = codes "500";
      to_remote_map = iso_8859_1_to_ibm500;
      to_local_map = ibm500_to_iso_8859_1;
    }
    ∷ record {
      name = codes "871";
      to_remote_map = iso_8859_1_to_ibm871;
      to_local_map = ibm871_to_iso_8859_1;
    }
    ∷ record {
      name = codes "870";
      to_remote_map = iso_8859_2_to_ibm870;
      to_local_map = ibm870_to_iso_8859_2;
    }
    ∷ record {
      name = codes "905";
      to_remote_map = iso_8859_3_to_ibm905;
      to_local_map = ibm905_to_iso_8859_3;
    }
    ∷ record {
      name = codes "880";
      to_remote_map = iso_8859_5_to_ibm880;
      to_local_map = ibm880_to_iso_8859_5;
    }
    ∷ record {
      name = codes "420";
      to_remote_map = iso_8859_6_to_ibm420;
      to_local_map = ibm420_to_iso_8859_6;
    }
    ∷ record {
      name = codes "875";
      to_remote_map = iso_8859_7_to_ibm875;
      to_local_map = ibm875_to_iso_8859_7;
    }
    ∷ record {
      name = codes "424";
      to_remote_map = iso_8859_8_to_ibm424;
      to_local_map = ibm424_to_iso_8859_8;
    }
    ∷ record {
      name = codes "1026";
      to_remote_map = iso_8859_9_to_ibm1026;
      to_local_map = ibm1026_to_iso_8859_9;
    }
    ∷ record {
      name = codes "290";
      to_remote_map = jis_x0201_to_ibm290;
      to_local_map = ibm290_to_jis_x0201;
    }
    ∷ []
